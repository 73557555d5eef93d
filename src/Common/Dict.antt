-- ===== src/Common/Dict.antt =====
-- Python's dict with str keys, in insertion order: `d[k] = v` keeps the place of a key that is
-- already there and appends a new one.
use mathlib.Core.Path.{◌≡◌, refl, sym}
use mathlib.Core.Logic.{◌≢◌, inl, inr}
use mathlib.Core.Bool.{Bool, true, false}
use mathlib.Core.Option.{Option, none, some}
use mathlib.Core.List.{List, [], ◌∷◌, ◌++◌}
use native.Mathlib.Omega.{arith}
use openipc_tftp.Common.Tests.{if◌then◌else◌, Bool-cases}
use openipc_tftp.Common.Text.{Text, text_eq, text_eq_iff, text_eq_refl}

abbrev pub Dict {ℓ} : Type ℓ → Type ℓ
Dict V = List (Text × V)

module _ {ℓ} {V : Type ℓ} where
  -- `d.get(k)`
  unfoldable pub get : Dict V → Text → Option V
  get [] k = none
  get ((j, v) ∷ d) k = if text_eq j k then some v else get d k

  -- `d[k] = v`
  unfoldable pub put : Dict V → Text → V → Dict V
  put [] k v = (k, v) ∷ []
  put ((j, w) ∷ d) k v = if text_eq j k then (j, v) ∷ d else (j, w) ∷ put d k v

  -- `d.pop(k, None)`
  unfoldable pub remove : Dict V → Text → Dict V
  remove [] k = []
  remove ((j, w) ∷ d) k = let rest = remove d k in if text_eq j k then rest else (j, w) ∷ rest

  -- `k in d`
  unfoldable pub has_key : Dict V → Text → Bool
  has_key [] k = false
  has_key ((j, w) ∷ d) k = if text_eq j k then true else has_key d k

  -- `d.update(e)`
  unfoldable pub update : Dict V → Dict V → Dict V
  update d [] = d
  update d ((k, v) ∷ e) = update (put d k v) e

  pub get-put :
      (d : Dict V) (k : Text) (v : V) (j : Text)
      → get (put d k v) j ≡ (if text_eq k j then some v else get d j)
  unfolding get put
  get-put [] k v j = refl
  get-put ((i, w) ∷ d) k v j =
      ground (arith, text_eq_iff i k, text_eq_iff i j, text_eq_iff k j, get-put d k v j)

  pub get-remove :
      (d : Dict V) (k j : Text) → get (remove d k) j ≡ (if text_eq k j then none else get d j)
  unfolding get remove
  get-remove [] k j = ground arith
  get-remove ((i, w) ∷ d) k j =
      ground (arith, text_eq_iff i k, text_eq_iff i j, text_eq_iff k j, get-remove d k j)

  pub get-put_self : (d : Dict V) (k : Text) (v : V) → get (put d k v) k ≡ some v
  get-put_self d k v = rw (get-put d k v k, text_eq_refl k)

  pub get-remove_self : (d : Dict V) (k : Text) → get (remove d k) k ≡ none
  get-remove_self d k = rw (get-remove d k k, text_eq_refl k)

  -- A key that no binding has.
  abbrev pub Fresh : Text → Dict V → Type 0
  Fresh k [] = Unit
  Fresh k ((j, v) ∷ d) = (j ≢ k) × Fresh k d

  -- Every key stands once.
  abbrev pub IsUnique : Dict V → Type 0
  IsUnique [] = Unit
  IsUnique ((j, v) ∷ d) = Fresh j d × IsUnique d

  pub put-Fresh : (d : Dict V) (k : Text) (v : V) → Fresh k d → put d k v ≡ d ++ (k, v) ∷ []
  unfolding put
  put-Fresh [] k v h = refl
  put-Fresh ((j, w) ∷ d) k v (hj, hd) = ground (arith, text_eq_iff j k, put-Fresh d k v hd)

  pub Fresh-put : (d : Dict V) (k j : Text) (v : V) → k ≢ j → Fresh j d → Fresh j (put d k v)
  unfolding put
  Fresh-put [] k j v n h = (n, tt)
  Fresh-put ((i, w) ∷ d) k j v n (hi, hd) = ground (arith, Fresh-put d k j v n hd)

  -- Assignment keeps the keys apart.
  pub put-IsUnique : (d : Dict V) (k : Text) (v : V) → IsUnique d → IsUnique (put d k v)
  unfolding put
  put-IsUnique [] k v h = (tt, tt)
  put-IsUnique ((j, w) ∷ d) k v (hj, hd) = elim (Bool-cases (text_eq j k)) [
    | inl same ↦ rw same (hj, hd)
    | inr other ↦
        rw other (
          Fresh-put d k j v (λ e. cc (other, (text_eq_iff j k).1 (sym e))) hj,
          put-IsUnique d k v hd,
        )
  ]

module _ {ℓ} {V : Type ℓ} where
  Fresh-remove : (d : Dict V) (k j : Text) → Fresh j d → Fresh j (remove d k)
  unfolding remove
  Fresh-remove [] k j h = tt
  Fresh-remove ((i, w) ∷ d) k j (hi, hd) = ground (arith, Fresh-remove d k j hd)

  pub remove-IsUnique : (d : Dict V) (k : Text) → IsUnique d → IsUnique (remove d k)
  unfolding remove
  remove-IsUnique [] k h = tt
  remove-IsUnique ((j, w) ∷ d) k (hj, hd) =
      ground (arith, Fresh-remove d k j hj, remove-IsUnique d k hd)

  -- The last binding of a dict.
  pub get_last : (d : Dict V) (k : Text) (v : V) → Fresh k d → get (d ++ (k, v) ∷ []) k ≡ some v
  unfolding get
  get_last [] k v f = rw (text_eq_refl k) refl
  get_last ((j, w) ∷ d) k v (n, f) = ground (arith, text_eq_iff j k, get_last d k v f)

  pub put_last :
      (d : Dict V) (k : Text) (v w : V) → Fresh k d → put (d ++ (k, v) ∷ []) k w ≡ d ++ (k, w) ∷ []
  unfolding put
  put_last [] k v w f = rw (text_eq_refl k) refl
  put_last ((j, u) ∷ d) k v w (n, f) = ground (arith, text_eq_iff j k, put_last d k v w f)

  pub has_key-Fresh : (d : Dict V) (k : Text) → Fresh k d → has_key d k ≡ false
  unfolding has_key
  has_key-Fresh [] k f = refl
  has_key-Fresh ((j, v) ∷ d) k (n, f) = ground (arith, text_eq_iff j k, has_key-Fresh d k f)

  pub Fresh-IsUnique :
      (d : Dict V) (k : Text) (v : V) (e : Dict V) → IsUnique (d ++ (k, v) ∷ e) → Fresh k d
  Fresh-IsUnique [] k v e u = tt
  Fresh-IsUnique ((j, w) ∷ d) k v e (f, u) = (differs d f, Fresh-IsUnique d k v e u)
    where
      differs : (d : Dict V) → Fresh j (d ++ (k, v) ∷ e) → j ≢ k
      differs [] (n, f) = λ q. n (sym q)
      differs (b ∷ d) (n, f) = differs d f

pub get-empty {ℓ} : {V : Type ℓ} (k : Text) → get {V = V} [] k ≡ none
unfolding get
get-empty k = refl

pub ruleset dict_laws = (get-empty, get-remove, get-put)
