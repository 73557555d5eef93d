-- ===== src/EnvCli/Lines.antt =====
-- The lines that are printed for an environment.
use openipc_tftp.Common.{
  ◌≡◌, refl, sym, ap, ◌∙◌, ◌≢◌, ◌⊎◌, List, [], ◌∷◌, ◌++◌, some, inl, inr, All, All-append, true,
  All-IsIn, IsIn, length, map, arith, suc, Bool-cases,
}
use openipc_tftp.Common.Text.{
  Text, Lacks, text_eq, text_eq_iff, text_eq_refl, split_on, split_on-append,
}
use openipc_tftp.Common.Dict
use openipc_tftp.Common.Dict.{Dict, IsUnique, Fresh}
use openipc_tftp.Env.Layout.{insert_sorted, sorted, text_le}
use openipc_tftp.EnvCli.{lines_of, line_of, value_of, print_all}
use openipc_tftp.Env.{is_env_key, is_key_char}
use openipc_tftp.Config.Toml.Lines.{IsKey, is_env_key-IsKey}

insert_sorted-length : (k : Text) (ks : List Text) → length (insert_sorted k ks) ≡ suc (length ks)
unfolding insert_sorted
insert_sorted-length k [] = refl
insert_sorted-length k (j ∷ ks) = ground (arith, insert_sorted-length k ks)

sorted-length : (ks : List Text) → length (sorted ks) ≡ length ks
unfolding sorted
sorted-length [] = refl
sorted-length (k ∷ ks) = insert_sorted-length k (sorted ks) ∙ ap suc (sorted-length ks)

insert_sorted-IsIn :
    (x k : Text) (ks : List Text) → (x ≡ k) ⊎ IsIn x ks → IsIn x (insert_sorted k ks)
unfolding insert_sorted
insert_sorted-IsIn x k [] h = h
insert_sorted-IsIn x k (j ∷ ks) h = elim (Bool-cases (text_le k j)) [
  | inl le ↦ rw le h
  | inr gt ↦ rw gt (later (λ i. insert_sorted-IsIn x k ks i) h)
]
  where
    later :
        ((x ≡ k) ⊎ IsIn x ks → IsIn x (insert_sorted k ks))
        → (x ≡ k) ⊎ IsIn x (j ∷ ks)
        → (x ≡ j) ⊎ IsIn x (insert_sorted k ks)
    later rest (inl e) = inr (rest (inl e))
    later rest (inr (inl e)) = inl e
    later rest (inr (inr m)) = inr (rest (inr m))

sorted-IsIn : (x : Text) (ks : List Text) → IsIn x ks → IsIn x (sorted ks)
unfolding sorted
sorted-IsIn x [] h = h
sorted-IsIn x (k ∷ ks) (inl e) = insert_sorted-IsIn x k (sorted ks) (inl e)
sorted-IsIn x (k ∷ ks) (inr m) = insert_sorted-IsIn x k (sorted ks) (inr (sorted-IsIn x ks m))

IsIn-map : {A : Type 0} (f : A → Text) (x : A) (xs : List A) → IsIn x xs → IsIn (f x) (map f xs)
IsIn-map f x [] m = m
IsIn-map f x (y ∷ xs) (inl e) = inl (ap f e)
IsIn-map f x (y ∷ xs) (inr m) = inr (IsIn-map f x xs m)

map-length : {A : Type 0} (f : A → Text) (xs : List A) → length (map f xs) ≡ length xs
map-length f [] = refl
map-length f (x ∷ xs) = ap suc (map-length f xs)

Fresh-ne : (j : Text) (d : Dict Text) (b : Text × Text) → Fresh j d → IsIn b d → j ≢ b.0
Fresh-ne j [] b f m = elim m [ ]
Fresh-ne j ((k, v) ∷ d) b (fk, fd) (inl e) = λ i. fk (sym (ap (λ (c : Text × Text). c.0) e) ∙ sym i)
Fresh-ne j ((k, v) ∷ d) b (fk, fd) (inr m) = Fresh-ne j d b fd m

get-IsIn :
    (env : Dict Text) (b : Text × Text) → IsUnique env → IsIn b env → Dict.get env b.0 ≡ some b.1
unfolding Dict.get
get-IsIn [] b u m = elim m [ ]
get-IsIn ((j, w) ∷ d) b (f, u) (inl e) = rw e (rw (text_eq_refl j) refl)
get-IsIn ((j, w) ∷ d) b (f, u) (inr m) =
    ground (arith, text_eq_iff j b.0, Fresh-ne j d b f m, get-IsIn d b u m)

-- For an environment whose keys stand once, one line is printed for each binding: there are as many
-- lines as bindings, and `key=value` is among them for each.
pub lines_of-each :
    (env : Dict Text)
    → IsUnique env
    → (length (lines_of env) ≡ length env)
      × All (λ (b : Text × Text). IsIn (b.0 ++ b'=' ∷ b.1) (lines_of env)) env
unfolding lines_of line_of
lines_of-each env u = (
  map-length (line_of env) (sorted (map (λ (b : Text × Text). b.0) env))
      ∙ (sorted-length (map (λ (b : Text × Text). b.0) env)
          ∙ map-length (λ (b : Text × Text). b.0) env),
  All-IsIn _ env λ b m. rw (← line b m) (
      IsIn-map (line_of env) b.0 _
        (sorted-IsIn b.0 _ (IsIn-map (λ (c : Text × Text). c.0) b env m))),
)
  where
    line : (b : Text × Text) → IsIn b env → line_of env b.0 ≡ b.0 ++ b'=' ∷ b.1
    line b m = rw (get-IsIn env b u m) refl

insert_sorted-Lacks :
    (k : Text) (ks : List Text)
    → Lacks 10 k
    → All (Lacks 10) ks
    → All (Lacks 10) (insert_sorted k ks)
unfolding insert_sorted
insert_sorted-Lacks k [] h hs = (h, tt)
insert_sorted-Lacks k (j ∷ ks) h (hj, hs) = elim (Bool-cases (text_le k j)) [
  | inl le ↦ rw le (h, (hj, hs))
  | inr gt ↦ rw gt (hj, insert_sorted-Lacks k ks h hs)
]

sorted-Lacks : (ks : List Text) → All (Lacks 10) ks → All (Lacks 10) (sorted ks)
unfolding sorted
sorted-Lacks [] h = tt
sorted-Lacks (k ∷ ks) (h, hs) = insert_sorted-Lacks k (sorted ks) h (sorted-Lacks ks hs)

-- A binding without newlines.
abbrev pub IsPrinted : Text × Text → Type 0
IsPrinted (key, value) = (is_env_key key ≡ true) × Lacks 10 value

key-Lacks : (key : Text) → is_env_key key ≡ true → Lacks 10 key
key-Lacks key h = go key (IsKey.chars (is_env_key-IsKey key h))
  where
    go : (s : Text) → All (λ c. is_key_char c ≡ true) s → Lacks 10 s
    go [] h = tt
    go (c ∷ s) (hc, hs) = (ground arith, go s hs)

value_of-Lacks :
    (env : Dict Text) (k : Text) → All IsPrinted env → Lacks 10 (value_of (Dict.get env k))
unfolding Dict.get
value_of-Lacks [] k h = tt
value_of-Lacks ((j, v) ∷ env) k ((hj, hv), h) = elim (Bool-cases (text_eq j k)) [
  | inl same ↦ rw same hv
  | inr other ↦ rw other (value_of-Lacks env k h)
]

lines_of-Lacks : (env : Dict Text) → All IsPrinted env → All (Lacks 10) (lines_of env)
unfolding lines_of line_of
lines_of-Lacks env h =
    each (sorted (map (λ (b : Text × Text). b.0) env)) (sorted-Lacks _ (keys env h))
  where
    keys : (e : Dict Text) → All IsPrinted e → All (Lacks 10) (map (λ (b : Text × Text). b.0) e)
    keys [] h = tt
    keys ((k, v) ∷ e) ((hk, hv), h) = (key-Lacks k hk, keys e h)

    each : (ks : List Text) → All (Lacks 10) ks → All (Lacks 10) (map (line_of env) ks)
    each [] h = tt
    each (k ∷ ks) (hk, hs) = (
      All-append _ k (b'=' ∷ value_of (Dict.get env k)) hk (omega arith, value_of-Lacks env k h),
      each ks hs,
    )

split_on-print_all :
    (ls : List Text) → All (Lacks 10) ls → split_on 10 (print_all ls) ≡ ls ++ [] ∷ []
unfolding print_all
split_on-print_all [] h = unfold split_on in refl
split_on-print_all (l ∷ ls) (h, hs) =
    split_on-append 10 l (print_all ls) h ∙ ap (◌∷◌ l) (split_on-print_all ls hs)

-- The text that is printed for an environment whose values have no newlines: one line for each
-- binding.
pub printed_lines :
    (env : Dict Text)
    → All IsPrinted env
    → split_on 10 (print_all (lines_of env)) ≡ lines_of env ++ [] ∷ []
printed_lines env h = split_on-print_all (lines_of env) (lines_of-Lacks env h)
