-- ===== src/Deploy/Kept.antt =====
-- The environment that an installation writes.
use openipc_tftp.Common.{
  ℕ, ◌≡◌, refl, ap₂, ◌∙◌, not, ◌&&◌, ◌⊎◌, inl, inr, Bool, true, false, List, [], ◌∷◌, ◌++◌, Option,
  none, some, Option-cases, ok, arith, if◌then◌else◌, any_of, Bool-cases,
}
use openipc_tftp.Common.Text.{Text, codes, text_eq, text_eq_iff}
use openipc_tftp.Common.Dict
use openipc_tftp.Common.Dict.{Dict, IsUnique, Fresh, get-put}
use openipc_tftp.Scripted.Texts.{subscript}
use openipc_tftp.Term.{uboot_msg, style}
use openipc_tftp.Deploy.{
  gen_mac, merge_env, kept_keys, bindings_of, Patched, openipc_patch_env, messages, binding_text,
}

-- The first of two values that is there.
abbrev pub or_else : Option Text → Option Text → Option Text
or_else none other = other
or_else (some v) other = some v

get-Fresh : (d : Dict Text) (k : Text) → Fresh k d → Dict.get d k ≡ none
unfolding Dict.get
get-Fresh [] k f = refl
get-Fresh ((j, v) ∷ d) k (n, f) = ground (arith, text_eq_iff j k, get-Fresh d k f)

get-update :
    (d e : Dict Text) (k : Text)
    → IsUnique e
    → Dict.get (Dict.update d e) k ≡ or_else (Dict.get e k) (Dict.get d k)
unfolding Dict.update Dict.get
get-update d [] k u = refl
get-update d ((j, v) ∷ e) k (f, u) =
    get-update (Dict.put d j v) e k u ∙ step (Bool-cases (text_eq j k))
  where
    step :
        (text_eq j k ≡ true) ⊎ (text_eq j k ≡ false)
        → or_else (Dict.get e k) (Dict.get (Dict.put d j v) k)
          ≡ or_else (if text_eq j k then some v else Dict.get e k) (Dict.get d k)
    step (inl h) = rw (get-put d j v k) (rw h (rw (missing_there h) refl))
      where
        missing_there : text_eq j k ≡ true → Dict.get e k ≡ none
        missing_there h = rw (← (text_eq_iff j k).0 h) (get-Fresh e j f)
    step (inr h) = rw (get-put d j v k) (rw h refl)

abbrev pub holds : List Text → Text → Bool
holds keys k = any_of (λ j. text_eq j k) keys

distinct : List Text → Bool
distinct [] = true
distinct (k ∷ ks) = not (holds ks k) && distinct ks

bindings_of-Fresh :
    (env : Dict Text) (keys : List Text) (k : Text)
    → holds keys k ≡ false
    → Fresh k (bindings_of env keys)
unfolding bindings_of
bindings_of-Fresh env [] k h = tt
bindings_of-Fresh env (j ∷ keys) k h = elim (Option-cases (Dict.get env j)) [
  | inl e ↦ rw (e, Fresh) (bindings_of-Fresh env keys k (ground arith))
  | inr (v, e) ↦
      rw (e, Fresh) (ground (arith, text_eq_iff j k), bindings_of-Fresh env keys k (ground arith))
]

bindings_of-IsUnique :
    (env : Dict Text) (keys : List Text) → distinct keys ≡ true → IsUnique (bindings_of env keys)
unfolding bindings_of distinct
bindings_of-IsUnique env [] h = tt
bindings_of-IsUnique env (j ∷ keys) h = elim (Option-cases (Dict.get env j)) [
  | inl e ↦ rw (e, IsUnique) (bindings_of-IsUnique env keys (ground arith))
  | inr (v, e) ↦
      rw (e, IsUnique)
        (bindings_of-Fresh env keys j (ground arith), bindings_of-IsUnique env keys (ground arith))
]

get-bindings_of :
    (env : Dict Text) (keys : List Text) (k : Text)
    → Dict.get (bindings_of env keys) k ≡ (if holds keys k then Dict.get env k else none)
unfolding bindings_of Dict.get
get-bindings_of env [] k = refl
get-bindings_of env (j ∷ keys) k =
    at_key (text_eq_cases j k) (Option-cases (Dict.get env j)) (get-bindings_of env keys k)
  where
    text_eq_cases : (j k : Text) → (j ≡ k) × (text_eq j k ≡ true) ⊎ (text_eq j k ≡ false)
    text_eq_cases j k = ground (arith, text_eq_iff j k)

    at_key :
        (j ≡ k) × (text_eq j k ≡ true) ⊎ (text_eq j k ≡ false)
        → (Dict.get env j ≡ none) ⊎ ((v : Text) × (Dict.get env j ≡ some v))
        → Dict.get (bindings_of env keys) k ≡ (if holds keys k then Dict.get env k else none)
        → Dict.get (bindings_of env (j ∷ keys)) k
          ≡ (if holds (j ∷ keys) k then Dict.get env k else none)
    at_key (inl (i, h)) (inl e) ih = ground arith
    at_key (inl (i, h)) (inr (v, e)) ih = ground arith
    at_key (inr h) (inl e) ih = ground arith
    at_key (inr h) (inr (v, e)) ih = ground arith

keys_of : Dict Text → List Text
keys_of [] = []
keys_of ((k, v) ∷ d) = k ∷ keys_of d

IsUnique-of : (d : Dict Text) → distinct (keys_of d) ≡ true → IsUnique d
unfolding distinct keys_of
IsUnique-of [] h = tt
IsUnique-of ((k, v) ∷ d) h = (fresh d (ground arith), IsUnique-of d (ground arith))
  where
    fresh : (e : Dict Text) → holds (keys_of e) k ≡ false → Fresh k e
    fresh [] f = tt
    fresh ((j, w) ∷ e) f = (ground (arith, text_eq_iff j k), fresh e (ground arith))

green-uboot_msg :
    (text : Text) → (line : Text) × (uboot_msg text (codes "green") false true ≡ ok line)
unfolding uboot_msg style Dict.get text_eq
green-uboot_msg text = (_, refl)

messages_ok : (mark : Text) (bs : Dict Text) → (ms : List Text) × (messages mark bs ≡ ok ms)
unfolding messages binding_text
messages_ok mark [] = ([], refl)
messages_ok mark (b ∷ bs) =
    let (line, e) = green-uboot_msg (binding_text mark b) in
    let (ms, f) = messages_ok mark bs in (line ∷ ms, rw e (rw f refl))

-- Where the old environment has an `ethaddr`, openipc_patch_env succeeds, and a name has in the new
-- environment: what the old environment has, if it is one of the kept names and stands there; else
-- what the installation sets it to; else what it had in the image.
pub get-openipc_patch_env :
    (rambase ident mac : Text) (random : List ℕ) (old_env new_env : Dict Text)
    → Dict.get old_env (codes "ethaddr") ≡ some mac
    → (p : Patched) × (openipc_patch_env rambase ident random old_env new_env ≡ ok p)
      × ((k : Text)
          → Dict.get p.new_env k
            ≡ or_else (if holds kept_keys k then Dict.get old_env k else none) (
                or_else
                  (Dict.get (merge_env rambase ident (gen_mac mac random)) k)
                  (Dict.get new_env k)))
unfolding openipc_patch_env subscript
get-openipc_patch_env rambase ident mac random old_env new_env h =
    let merge = merge_env rambase ident (gen_mac mac random) in
    let kept = bindings_of old_env kept_keys in
    let (added, e) = messages_ok (codes "+") merge in
    let (taken, f) = messages_ok (codes ">") kept in
    (
      record { msgs = added ++ taken; new_env = Dict.update (Dict.update new_env merge) kept },
      rw h (rw e (rw f refl)),
      λ k.
          get-update (Dict.update new_env merge) kept k
            (bindings_of-IsUnique old_env kept_keys kept_distinct)
          ∙ ap₂ or_else (get-bindings_of old_env kept_keys k)
              (get-update new_env merge k (merge_unique rambase ident (gen_mac mac random))),
    )
  where
    kept_distinct : distinct kept_keys ≡ true
    kept_distinct = unfold distinct text_eq in refl

    merge_unique : (rambase ident mac : Text) → IsUnique (merge_env rambase ident mac)
    merge_unique rambase ident mac =
        IsUnique-of (merge_env rambase ident mac)
          (unfold merge_env distinct keys_of text_eq in refl)
