-- ===== src/Protocol/ClientId.antt =====
-- What normalize_client_id accepts, and what it returns.
use openipc_tftp.Common.{
  ℕ, ◌≤◌, ◌≡◌, ◌≢◌, refl, sym, ap, ◌⊎◌, inl, inr, ◌↔◌, true, [], ◌∷◌, ok, err, value_error,
  Bool-cases, arith, subst, is_empty, ==_iff, &&-eq-true, ||-eq-true,
}
use openipc_tftp.Common.Text.{Text, lower, lower_char, Lacks}
use openipc_tftp.Protocol.{is_id_char, matches_rest, matches_client_id, normalize_client_id}

-- A lower-case letter, a digit, `_` or `-`.
abbrev pub IsWordChar : ℕ → Type 0
IsWordChar c = ((b'a' ≤ c) × (c ≤ b'z')) ⊎ ((b'0' ≤ c) × (c ≤ b'9')) ⊎ (c ≡ b'_') ⊎ (c ≡ b'-')

abbrev newline : ℕ
newline = 10

-- Word characters, and perhaps one newline at the end.
abbrev pub IsTail : Text → Type 0
IsTail [] = Unit
IsTail (c ∷ s) = (IsWordChar c × IsTail s) ⊎ ((c ≡ newline) × (s ≡ []))

abbrev pub IsClientId : Text → Type 0
IsClientId [] = ⊥
IsClientId (c ∷ s) = IsWordChar c × IsTail s

word-lower : (c : ℕ) → is_id_char (lower_char c) ≡ true → IsWordChar (lower_char c)
word-lower c h = ground arith

nil_of_empty : (s : Text) → is_empty s ≡ true → s ≡ []
nil_of_empty [] h = refl
nil_of_empty (c ∷ s) h = cc

IsTail-sound : (s : Text) → matches_rest (lower s) ≡ true → IsTail (lower s)
unfolding matches_rest lower
IsTail-sound [] h = tt
IsTail-sound (c ∷ s) h = elim (||-eq-true _ _ h) [
  | inl ends ↦ let (n, e) = &&-eq-true _ _ ends in inr ((==_iff _ _).0 n, nil_of_empty (lower s) e)
  | inr more ↦ let (w, r) = &&-eq-true _ _ more in inl (word-lower c w, IsTail-sound s r)
]

tail_complete : (s : Text) → IsTail s → matches_rest s ≡ true
unfolding matches_rest
tail_complete [] h = refl
tail_complete (c ∷ s) (inl (w, h)) = ground (arith, tail_complete s h)
tail_complete (c ∷ s) (inr (e, f)) = rw (f, e) refl

id_complete : (s : Text) → IsClientId s → matches_client_id s ≡ true
unfolding matches_client_id
id_complete [] h = absurd h
id_complete (c ∷ s) (w, h) = ground (arith, tail_complete s h)

id_sound : (s : Text) → matches_client_id (lower s) ≡ true → IsClientId (lower s)
unfolding matches_client_id lower
id_sound [] h = cc
id_sound (c ∷ s) h = let (w, r) = &&-eq-true _ _ h in (word-lower c w, IsTail-sound s r)

-- A value is accepted exactly when its lower case is a client id (word characters, at least one,
-- and perhaps a newline at the end), and then the result is its lower case.
pub normalize_iff :
    (value id : Text) → (normalize_client_id value ≡ ok id) ↔ ((id ≡ lower value) × IsClientId id)
unfolding normalize_client_id
normalize_iff value id = (sound, complete)
  where
    sound : normalize_client_id value ≡ ok id → (id ≡ lower value) × IsClientId id
    sound h =
        let e : id ≡ lower value = ground arith in
        let m : matches_client_id (lower value) ≡ true = ground arith in
        (e, subst IsClientId (sym e) (id_sound value m))

    complete : (id ≡ lower value) × IsClientId id → normalize_client_id value ≡ ok id
    complete (e, h) = rw (id_complete (lower value) (subst IsClientId e h)) (ap ok (sym e))

tail_lower : (s : Text) → IsTail s → lower s ≡ s
unfolding lower
tail_lower [] h = refl
tail_lower (c ∷ s) (inl (w, h)) = ground (arith, tail_lower s h)
tail_lower (c ∷ s) (inr (e, f)) = rw (f, e) refl

pub id_lower : (id : Text) → IsClientId id → lower id ≡ id
unfolding lower
id_lower [] h = absurd h
id_lower (c ∷ s) (w, h) = ground (arith, tail_lower s h)

-- A client id is its own normal form, so normalising twice is normalising once.
pub normalize_fixed : (id : Text) → IsClientId id → normalize_client_id id ≡ ok id
normalize_fixed id h = (normalize_iff id id).1 (sym (id_lower id h), h)

tail-Lacks : (b : ℕ) (s : Text) → ¬ IsWordChar b → b ≢ newline → IsTail s → Lacks b s
tail-Lacks b [] n m h = tt
tail-Lacks b (c ∷ s) n m (inl (w, h)) = (λ e. n (subst IsWordChar e w), tail-Lacks b s n m h)
tail-Lacks b (c ∷ s) n m (inr (e, f)) = rw f (λ q. m (cc), tt)

-- The separators of paths and queries stand in no client id.
pub id-Lacks : (b : ℕ) (id : Text) → ¬ IsWordChar b → b ≢ newline → IsClientId id → Lacks b id
id-Lacks b [] n m h = absurd h
id-Lacks b (c ∷ s) n m (w, h) = (λ e. n (subst IsWordChar e w), tail-Lacks b s n m h)

-- A value is normalised to its lower case, or refused.
pub normalize-cases :
    (value : Text)
    → ((normalize_client_id value ≡ ok (lower value)) × IsClientId (lower value))
      ⊎ (normalize_client_id value ≡ err value_error)
unfolding normalize_client_id
normalize-cases value = elim (Bool-cases (matches_client_id (lower value))) [
  | inl fits ↦ inl (rw fits refl, id_sound value fits)
  | inr misfit ↦ inr (rw misfit refl)
]

pub refused :
    (value : Text) → normalize_client_id value ≡ err value_error → ¬ IsClientId (lower value)
refused value e h = cc (e, (normalize_iff value (lower value)).1 (refl, h))

pub normalize_refused :
    (value : Text) → (¬ IsClientId (lower value)) → normalize_client_id value ≡ err value_error
normalize_refused value n = elim (normalize-cases value) [
  | inl (e, valid) ↦ absurd (n valid)
  | inr e ↦ e
]
