-- ===== src/Env/Search/Best.antt =====
-- The choice among the environments that are found in the candidates:
-- extract_default_env_from_uboot of src/uboot_tftp/ubootenv.py.
use openipc_tftp.Common.{
  ℕ, ◌≤◌, ◌≡◌, refl, List, [], ◌∷◌, ◌++◌, append_assoc, append-nil, none, some, Result, ok, err,
  value_error, arith, inl, inr, Bool-cases, All, All-append, IsIn, foldl, ltb, if◌then◌else◌,
}
use openipc_tftp.Common.Text.{Text, Bytes}
use openipc_tftp.Common.Dict.{Dict}
use openipc_tftp.Env.{parse_nul_delimited_env}
use openipc_tftp.Env.Search.{
  Decompress, find_blobs, score, is_plausible_embedded_env, Best, better, try_blob, try_candidate,
  best_or_error, found_in, iter_uboot_candidates, enough, extract_default_env_from_uboot,
}
use openipc_tftp.Env.Search.Queue.{iter_uboot_candidates_ends}

abbrev pub Scored : Type 0
Scored = List (ℕ × Dict Text)

-- The plausible environments of a candidate's matches, with their scores.
pub in_blobs : Bytes → List Bytes → Scored
in_blobs candidate [] = []
in_blobs candidate (blob ∷ blobs) =
    let env = parse_nul_delimited_env blob in
    let rest = in_blobs candidate blobs in
    if is_plausible_embedded_env env then (score candidate blob, env) ∷ rest else rest

pub in_candidates : List (Text × Bytes) → Scored
unfolding in_blobs
in_candidates [] = []
in_candidates ((label, candidate) ∷ candidates) =
    in_blobs candidate (find_blobs 0 candidate) ++ in_candidates candidates

-- One of the environments, and none has a higher score.
abbrev Heads : ℕ × Dict Text → Scored → Type 0
Heads best found = IsIn best found × All (λ (f : ℕ × Dict Text). f.0 ≤ best.0) found

abbrev IsBest : Best → Scored → Type 0
IsBest none found = found ≡ []
IsBest (some best) found = Heads best found

IsIn-left : (x : ℕ × Dict Text) (xs ys : Scored) → IsIn x xs → IsIn x (xs ++ ys)
IsIn-left x [] ys m = elim m [ ]
IsIn-left x (y ∷ xs) ys (inl e) = inl e
IsIn-left x (y ∷ xs) ys (inr m) = inr (IsIn-left x xs ys m)

IsIn-last : (x : ℕ × Dict Text) (xs : Scored) → IsIn x (xs ++ x ∷ [])
IsIn-last x [] = inl refl
IsIn-last x (y ∷ xs) = inr (IsIn-last x xs)

All-le :
    (m n : ℕ) (found : Scored)
    → m ≤ n
    → All (λ (f : ℕ × Dict Text). f.0 ≤ m) found
    → All (λ (f : ℕ × Dict Text). f.0 ≤ n) found
All-le m n [] h a = tt
All-le m n (f ∷ found) h (a, rest) = (omega arith, All-le m n found h rest)

better-IsBest :
    (best : Best) (s : ℕ) (env : Dict Text) (found : Scored)
    → IsBest best found
    → IsBest (better best s env) (found ++ (s, env) ∷ [])
unfolding better
better-IsBest none s env found e = rw e (inl refl, (omega arith, tt))
better-IsBest (some (t, old)) s env found (m, h) = elim (Bool-cases (ltb t s)) [
  | inl more ↦ rw more (
    IsIn-last (s, env) found,
    All-append (λ (f : ℕ × Dict Text). f.0 ≤ s) found ((s, env) ∷ [])
        (All-le t s found (ground arith) h) (omega arith, tt),
  )
  | inr less ↦ rw less (
    IsIn-left (t, old) found ((s, env) ∷ []) m,
    All-append (λ (f : ℕ × Dict Text). f.0 ≤ t) found ((s, env) ∷ []) h (ground arith, tt),
  )
]

blobs-IsBest :
    (candidate : Bytes) (blobs : List Bytes) (best : Best) (found : Scored)
    → IsBest best found
    → IsBest (foldl (try_blob candidate) best blobs) (found ++ in_blobs candidate blobs)
unfolding in_blobs try_blob
blobs-IsBest candidate [] best found h = rw (append-nil found) h
blobs-IsBest candidate (blob ∷ blobs) best found h =
    let env = parse_nul_delimited_env blob in
    let s = score candidate blob in
    elim (Bool-cases (is_plausible_embedded_env (parse_nul_delimited_env blob))) [
      | inl good ↦ rw good (
          rw (← append_assoc found ((s, env) ∷ []) (in_blobs candidate blobs)) (
            blobs-IsBest candidate blobs (better best s env) (found ++ (s, env) ∷ [])
              (better-IsBest best s env found h)))
      | inr poor ↦ rw poor (blobs-IsBest candidate blobs best found h)
    ]

candidates-IsBest :
    (candidates : List (Text × Bytes)) (best : Best) (found : Scored)
    → IsBest best found
    → IsBest (foldl try_candidate best candidates) (found ++ in_candidates candidates)
unfolding in_candidates try_candidate
candidates-IsBest [] best found h = rw (append-nil found) h
candidates-IsBest ((label, candidate) ∷ candidates) best found h =
    rw
      (← append_assoc found (in_blobs candidate (find_blobs 0 candidate))
        (in_candidates candidates))
      (candidates-IsBest candidates _ (found ++ in_blobs candidate (find_blobs 0 candidate))
        (blobs-IsBest candidate (find_blobs 0 candidate) best found h))

-- What a choice among the environments gives.
pub data Chosen (found : Scored) : Result (Dict Text) → Type 0 where
  best_of :
      {env : Dict Text} (s : ℕ)
      → IsIn (s, env) found
      → All (λ (f : ℕ × Dict Text). f.0 ≤ s) found
      → Chosen found (ok env)
  nothing_found : found ≡ [] → Chosen found (err value_error)

best_or_error-Chosen :
    (best : Best) (found : Scored) → IsBest best found → Chosen found (best_or_error best)
unfolding best_or_error
best_or_error-Chosen none found h = nothing_found h
best_or_error-Chosen (some (s, env)) found (m, h) = best_of s m h

-- For any decompressors and boot region, extract_default_env_from_uboot looks into every candidate:
-- it returns one of the plausible environments in their matches, of the highest score of all, and
-- raises ValueError if they have none.
pub extract_default_env-Chosen :
    (decompress : Decompress) (boot_region : Bytes)
    → (candidates : List (Text × Bytes)) × (iter_uboot_candidates decompress
          (enough decompress boot_region)
          boot_region
        ≡ some candidates)
      × Chosen (in_candidates candidates) (extract_default_env_from_uboot decompress boot_region)
unfolding extract_default_env_from_uboot found_in
extract_default_env-Chosen decompress boot_region =
    let ends = iter_uboot_candidates_ends decompress boot_region in
    (ends.0, ends.1, rw (ends.1) (best_or_error-Chosen _ _ (candidates-IsBest ends.0 none [] refl)))
