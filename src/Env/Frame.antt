-- ===== src/Env/Frame.antt =====
-- What a patch of a flash image leaves.
use openipc_tftp.Common.{
  ℕ, ◌+◌, ◌-◌, ◌≤◌, ◌≡◌, sym, ap, ◌∙◌, [], ◌∷◌, ◌++◌, Option, some, ok, arith, inl, inr, false,
  Bool-cases, value_error, guard, ltb, take, drop, length, replicate, length-append, length-take,
  length-drop, length-replicate, take-append, drop-append, append_assoc, Ensures, Ensures-bind,
  Ensures-value,
}
use openipc_tftp.Common.Text.{Text, Bytes}
use openipc_tftp.Common.Dict.{Dict}
use openipc_tftp.Env.{
  EnvPartitionInfo, flag_bytes, encode_env_image_payload, padded, build, patch_at, flags_fit,
  env_segment,
}

padded-length :
    (payload : Bytes) (size header pad : ℕ)
    → 1 ≤ length payload
    → Ensures (λ b. length b + header ≡ size) (padded payload (some size) header pad)
unfolding padded
padded-length payload size header pad h = elim (Bool-cases (ltb (size - header) (length payload))) [
  | inl small ↦ rw small tt
  | inr room ↦ rw room (
      omega (
        arith,
        length-append payload (replicate (size - header - length payload) pad),
        length-replicate {A = ℕ} (size - header - length payload) pad,
        room_le room,
      ))
]
  where
    room_le : ltb (size - header) (length payload) ≡ false → length payload ≤ size - header
    room_le e = ground arith

payload_size : (env : Dict Text) → Ensures (λ b. 1 ≤ length b) (encode_env_image_payload env)
unfolding encode_env_image_payload
payload_size [] = omega arith
payload_size (b ∷ env) =
    Ensures-bind (λ s. 1 ≤ length s) (env_segment b) _
      λ segment _.
        Ensures-bind (λ s. 1 ≤ length s) (encode_env_image_payload env) _
          λ rest e.
            let long =
              Ensures-value (λ s. 1 ≤ length s) (encode_env_image_payload env) (payload_size env)
                e in
            omega (arith, length-append segment rest, long)

pub build-length :
    (env : Dict Text) (size : ℕ) (flags : Option ℕ) (pad : ℕ)
    → Ensures (λ b. length b ≡ size) (build env (some size) flags pad)
unfolding build
build-length env size flags pad =
    let P : Bytes → Type 0 = λ b. length b ≡ size in
    Ensures-bind P (guard (ltb pad 256) value_error) _ λ u _.
      Ensures-bind P (guard (flags_fit flags) value_error) _ λ v _.
        Ensures-bind P (encode_env_image_payload env) _ λ payload e.
          let long =
            Ensures-value (λ s. 1 ≤ length s) (encode_env_image_payload env) (payload_size env) e in
          Ensures-bind P (padded payload (some size) (4 + length (flag_bytes flags)) pad) _
            λ body f.
              let sized =
                Ensures-value (λ b. length b + (4 + length (flag_bytes flags)) ≡ size) _
                  (padded-length payload size (4 + length (flag_bytes flags)) pad long) f in
              omega (arith, length-append (flag_bytes flags) body, sized)

-- The bytes of a flash image outside of the environment partition, and its size.
pub record Frames (image : Bytes) (info : EnvPartitionInfo) (patched : Bytes) : Type 0 where
  pub size : length patched ≡ length image
  pub before : take info.offset patched ≡ take info.offset image
  pub after : drop (info.offset + info.size) patched ≡ drop (info.offset + info.size) image

framed :
    (image env_image : Bytes) (info : EnvPartitionInfo)
    → info.offset + info.size ≤ length image
    → length env_image ≡ info.size
    → Frames image info
        (take info.offset image ++ (env_image ++ drop (info.offset + info.size) image))
framed image env_image info h e =
    let front = take info.offset image in
    let back = drop (info.offset + info.size) image in
    let front_size : length front ≡ info.offset = omega (arith, length-take info.offset image) in
    record {
      size = omega (
        arith,
        length-append front (env_image ++ back),
        length-append env_image back,
        length-drop (info.offset + info.size) image,
      );
      before = take-append front (env_image ++ back) info.offset (sym front_size);
      after =
          ap (drop (info.offset + info.size)) (sym (append_assoc front env_image back))
          ∙ drop-append (front ++ env_image) back (info.offset + info.size)
              (omega (arith, length-append front env_image));
    }

-- When a partition that lies inside the image is replaced and the call succeeds, the image keeps
-- its size and every byte before and after the partition.
pub patch-Frames :
    (image : Bytes) (env : Dict Text) (info : EnvPartitionInfo) (flags : Option ℕ) (pad : ℕ)
    {patched : Bytes}
    → info.offset + info.size ≤ length image
    → patch_at image env info flags pad ≡ ok patched
    → Frames image info patched
unfolding patch_at
patch-Frames image env info flags pad {patched} h e =
    Ensures-value (Frames image info) (patch_at image env info flags pad)
      (Ensures-bind (Frames image info) (build env (some info.size) flags pad) _ λ env_image f.
        framed image env_image info h
          (Ensures-value (λ b. length b ≡ info.size) _ (build-length env info.size flags pad) f))
      e
