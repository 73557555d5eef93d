-- ===== src/Env/Payload.antt =====
-- The payload of an environment image, printed and read back.
use openipc_tftp.Common.{
  ℕ, zero, suc, ◌≡◌, ◌≢◌, refl, sym, ap, ◌∙◌, ◌⊎◌, inl, inr, Bool, true, false, not, [], ◌∷◌, ◌++◌,
  ok, arith, All, All-append, append_assoc, append-nil, map, foldl, replicate, all_of, is_empty,
  &&-eq-true, ltb, is_empty,
}
use openipc_tftp.Common.Text.{
  Text, Bytes, rstrip, join, partition-append, split_on, Lacks, has_char,
}
use openipc_tftp.Common.Dict
use openipc_tftp.Common.Dict.{Dict, IsUnique, Fresh, put-Fresh, Fresh-put}
use openipc_tftp.Common.Strip.{Fails, rstrip-join, split_on-join}
use openipc_tftp.Common.Utf8.{
  IsScalar, OnlyAt, text_bytes, encode-text_bytes, decode-text_bytes, text_bytes-Lacks,
}
use openipc_tftp.Env.{
  is_key_char, is_env_key, is_blank, add_segment, parse_nul_delimited_env, env_segment,
  encode_env_image_payload,
}

-- What an environment image can hold: a key of key characters, and a text without NUL.
abbrev pub IsBinding : Text × Text → Type 0
IsBinding (key, value) = (is_env_key key ≡ true) × All IsScalar value × Lacks 0 value

abbrev pub segment : Text × Text → Bytes
segment (key, value) = key ++ b'=' ∷ text_bytes value

pub blank_key :
    (c : ℕ)
    → is_key_char c ≡ true
    → (is_blank c ≡ false) × (c ≢ b'=') × (c ≢ 0) × (ltb c 128 ≡ true)
blank_key c h = (ground arith, ground arith, ground arith, ground arith)

module _ {P : ℕ → Type 0} (p : ℕ → Bool) (k : (c : ℕ) → p c ≡ true → P c) where
  All-of : (s : Text) → all_of p s ≡ true → All P s
  All-of [] h = tt
  All-of (c ∷ s) h = let (a, b) = &&-eq-true (p c) (all_of p s) h in (k c a, All-of s b)

pub key_chars : (key : Text) → is_env_key key ≡ true → all_of is_key_char key ≡ true
unfolding is_env_key
key_chars key h = (&&-eq-true (not (is_empty key)) (all_of is_key_char key) h).1

only_at : (b : ℕ) → (b ≡ 0) ⊎ (b ≡ 0xff) → (c : ℕ) → IsScalar c → c ≢ 0 → OnlyAt b c
only_at b (inl e) c h n = inl (omega arith, λ q. n (sym q ∙ e))
only_at b (inr e) c h n = inr (omega arith)

value_bytes :
    (b : ℕ)
    → (b ≡ 0) ⊎ (b ≡ 0xff)
    → (value : Text) → All IsScalar value
    → Lacks 0 value
    → All (OnlyAt b) value
value_bytes b e [] h k = tt
value_bytes b e (c ∷ value) (hc, h) (kc, k) = (only_at b e c hc kc, value_bytes b e value h k)

Fails-both : (s : Bytes) → Lacks 0 s → Lacks 0xff s → Fails is_blank s
Fails-both [] h k = tt
Fails-both (c ∷ s) (hc, h) (kc, k) = (ground arith, Fails-both s h k)

segment-Fails : (b : Text × Text) → IsBinding b → Fails is_blank (segment b)
segment-Fails (key, value) (hk, hs, h0) =
    All-append _ key (b'=' ∷ text_bytes value)
      (All-of is_key_char (λ c h. (blank_key c h).0) key (key_chars key hk))
      (
        refl,
        Fails-both (text_bytes value)
            (text_bytes-Lacks 0 value hs (value_bytes 0 (inl refl) value hs h0))
            (text_bytes-Lacks 0xff value hs (value_bytes 0xff (inr refl) value hs h0)),
      )

segment-Lacks : (b : Text × Text) → IsBinding b → Lacks 0 (segment b)
segment-Lacks (key, value) (hk, hs, h0) =
    All-append _ key (b'=' ∷ text_bytes value)
      (All-of is_key_char (λ c h. (blank_key c h).2) key (key_chars key hk))
      (omega arith, text_bytes-Lacks 0 value hs (value_bytes 0 (inl refl) value hs h0))

segment_not_nil : (key rest : Bytes) → (key ++ b'=' ∷ rest) ≢ []
segment_not_nil [] rest e = cc
segment_not_nil (c ∷ key) rest e = cc

rstrip_junk :
    (p : ℕ → Bool) (s junk : Bytes) → all_of p junk ≡ true → rstrip p (s ++ junk) ≡ rstrip p s
unfolding rstrip
rstrip_junk p [] [] h = refl
rstrip_junk p [] (c ∷ junk) h =
    let (a, b) = &&-eq-true (p c) (all_of p junk) h in rw (rstrip_junk p [] junk b) (rw a refl)
rstrip_junk p (c ∷ s) junk h = rw (rstrip_junk p s junk h) refl

put_binding : Dict Text → Text × Text → Dict Text
put_binding d b = Dict.put d b.0 b.1

add-segment :
    (d : Dict Text) (b : Text × Text) → IsBinding b → add_segment d (segment b) ≡ put_binding d b
unfolding add_segment put_binding
add-segment d (key, value) (hk, hs, h0) =
    rw
      (partition-append b'=' key (text_bytes value)
        (All-of is_key_char (λ c h. (blank_key c h).1) key (key_chars key hk)))
      (rw hk (rw (decode-text_bytes value hs) refl))

add_segments :
    (env d : Dict Text)
    → All IsBinding env
    → foldl add_segment d (map segment env) ≡ foldl put_binding d env
add_segments [] d h = refl
add_segments (b ∷ env) d (hb, h) =
    ap (λ e. foldl add_segment e (map segment env)) (add-segment d b hb)
    ∙ add_segments env (put_binding d b) h

-- Putting the bindings of a dict in order gives the dict.
put-All :
    (env d : Dict Text)
    → IsUnique env
    → All (λ (b : Text × Text). Fresh b.0 d) env
    → foldl put_binding d env ≡ d ++ env
unfolding put_binding
put-All [] d u h = sym (append-nil d)
put-All ((k, v) ∷ env) d (f, u) (hk, h) =
    put-All env (Dict.put d k v) u (later env f h)
    ∙ ap (λ e. e ++ env) (put-Fresh d k v hk)
    ∙ append_assoc d ((k, v) ∷ []) env
  where
    later :
        (rest : Dict Text)
        → Fresh k rest
        → All (λ (b : Text × Text). Fresh b.0 d) rest
        → All (λ (b : Text × Text). Fresh b.0 (Dict.put d k v)) rest
    later [] g r = tt
    later ((j, w) ∷ rest) (n, g) (hj, r) = (Fresh-put d k j v (λ e. n (sym e)) hj, later rest g r)

empty-Fresh : (env : Dict Text) → All (λ (b : Text × Text). Fresh {V = Text} b.0 []) env
empty-Fresh [] = tt
empty-Fresh (b ∷ env) = (tt, empty-Fresh env)

abbrev pub payload : Dict Text → Bytes
payload [] = 0 ∷ []
payload (b ∷ env) = segment b ++ 0 ∷ payload env

ascii_key : (s : Text) → all_of is_key_char s ≡ true → all_of (λ c. ltb c 128) s ≡ true
ascii_key [] h = refl
ascii_key (c ∷ s) h =
    let (a, b) = &&-eq-true (is_key_char c) (all_of is_key_char s) h in
    rw ((blank_key c a).3, ascii_key s b) refl

no_nul : (s : Bytes) → Lacks 0 s → has_char 0 s ≡ false
no_nul [] h = refl
no_nul (c ∷ s) (hc, h) = rw (no_nul s h) (ground arith)

env_segment_ok : (b : Text × Text) → IsBinding b → env_segment b ≡ ok (segment b ++ 0 ∷ [])
unfolding env_segment
env_segment_ok (key, value) (hk, hs, h0) = rw (ascii_key key (key_chars key hk)) (
    rw hk (
      rw (encode-text_bytes value hs) (
        rw
          (no_nul (text_bytes value)
            (text_bytes-Lacks 0 value hs (value_bytes 0 (inl refl) value hs h0)))
          (ap ok (sym (append_assoc key (b'=' ∷ text_bytes value) (0 ∷ [])))))))

pub encode_ok :
    (env : Dict Text) → All IsBinding env → encode_env_image_payload env ≡ ok (payload env)
unfolding encode_env_image_payload
encode_ok [] h = refl
encode_ok (b ∷ env) (hb, h) =
    rw (env_segment_ok b hb)
      (rw (encode_ok env h) (ap ok (append_assoc (segment b) (0 ∷ []) (payload env))))

payload-join :
    (b : Text × Text) (env : Dict Text)
    → payload (b ∷ env) ≡ join (0 ∷ []) (map segment (b ∷ env)) ++ 0 ∷ 0 ∷ []
unfolding join
payload-join b [] = refl
payload-join b (a ∷ env) =
    ap (λ rest. segment b ++ 0 ∷ rest) (payload-join a env)
    ∙ sym (append_assoc (segment b) (0 ∷ join (0 ∷ []) (map segment (a ∷ env))) (0 ∷ 0 ∷ []))

segments-All :
    (env : Dict Text)
    → All IsBinding env
    → All (λ w. (w ≢ []) × Fails is_blank w) (map segment env) × All (Lacks 0) (map segment env)
segments-All [] h = (tt, tt)
segments-All ((k, v) ∷ env) (hb, h) =
    let (a, b) = segments-All env h in
    (((segment_not_nil k (text_bytes v), segment-Fails (k, v) hb), a), (segment-Lacks (k, v) hb, b))

blank_pad :
    (n pad : ℕ) → (pad ≡ 0) ⊎ (pad ≡ 0xff) → all_of is_blank (0 ∷ 0 ∷ replicate n pad) ≡ true
blank_pad n pad e = pads n
  where
    one_pad : (q : (pad ≡ 0) ⊎ (pad ≡ 0xff)) → is_blank pad ≡ true
    one_pad (inl q) = rw q refl
    one_pad (inr q) = rw q refl

    pads : (m : ℕ) → all_of is_blank (replicate m pad) ≡ true
    pads zero = refl
    pads (suc m) = rw (one_pad e) (pads m)

pub parse_payload :
    (b : Text × Text) (env : Dict Text) (n pad : ℕ)
    → All IsBinding (b ∷ env)
    → IsUnique (b ∷ env)
    → (pad ≡ 0) ⊎ (pad ≡ 0xff)
    → parse_nul_delimited_env (payload (b ∷ env) ++ replicate n pad) ≡ b ∷ env
unfolding parse_nul_delimited_env
parse_payload b env n pad h u e =
    let segments = map segment env in
    let (solid, lacks) = segments-All (b ∷ env) h in
    ap (λ body. foldl add_segment [] (split_on 0 body))
      (ap (λ s. rstrip is_blank (s ++ replicate n pad)) (payload-join b env)
        ∙ ap (rstrip is_blank)
            (append_assoc (join (0 ∷ []) (segment b ∷ segments)) (0 ∷ 0 ∷ []) (replicate n pad))
        ∙ rstrip_junk is_blank (join (0 ∷ []) (segment b ∷ segments)) (0 ∷ 0 ∷ replicate n pad)
            (blank_pad n pad e)
        ∙ rstrip-join is_blank (0 ∷ []) (segment b) segments solid)
    ∙ ap (foldl add_segment []) (split_on-join 0 (segment b) segments lacks)
    ∙ add_segments (b ∷ env) [] h
    ∙ put-All (b ∷ env) [] u (empty-Fresh (b ∷ env))
