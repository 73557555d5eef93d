-- ===== src/Config/Toml/Lines.antt =====
-- Reading single lines of simple TOML.
use openipc_tftp.Common.{
  ℕ, ◌≡◌, refl, true, false, [], ◌∷◌, ◌++◌, append_assoc, Option, some, ok, arith, All, is_empty,
  all_of, ◌==◌,
}
use openipc_tftp.Common.Text.{
  Text, Lacks, codes, text_eq, starts_with, lower, strip, lstrip, rstrip, partition-append,
  is_space, join,
}
use openipc_tftp.Common.Strip.{Fails, strip-join}
use openipc_tftp.Common.Dict.{Dict}
use openipc_tftp.Env.{is_env_key, is_key_char}
use openipc_tftp.Config.{Value, a_text, a_number, a_flag, Section}
use openipc_tftp.Config.Toml.{parse_simple_toml_value, Loading, open_section, assign, add_line}
use openipc_tftp.Config.Toml.Written.{
  quoted, value_text, binding_line, name_line, is_plain, IsWritable, IsLine, strip_ends,
  ends_with_last, without_last-append,
}

-- The keys and names of a file.
pub record IsKey (k : Text) : Type 0 where
  pub first : ℕ
  pub rest : Text
  pub spelled : k ≡ first ∷ rest
  pub chars : All (λ c. is_key_char c ≡ true) k

pub is_env_key-IsKey : (k : Text) → is_env_key k ≡ true → IsKey k
unfolding is_env_key
is_env_key-IsKey [] h = absurd (cc h)
is_env_key-IsKey (c ∷ k) h = record { first = c; rest = k; spelled = refl; chars = every (c ∷ k) h }
  where
    every : (s : Text) → all_of is_key_char s ≡ true → All (λ c. is_key_char c ≡ true) s
    every [] h = tt
    every (c ∷ s) h = (ground arith, every s (ground arith))

chars-Fails : (s : Text) → All (λ c. is_key_char c ≡ true) s → Fails is_space s
chars-Fails [] h = tt
chars-Fails (c ∷ s) (hc, hs) = (ground arith, chars-Fails s hs)

chars-Lacks : (s : Text) → All (λ c. is_key_char c ≡ true) s → Lacks b'=' s
chars-Lacks [] h = tt
chars-Lacks (c ∷ s) (hc, hs) = (ground arith, chars-Lacks s hs)

pub chars-IsLine : (s : Text) → All (λ c. is_key_char c ≡ true) s → IsLine s
chars-IsLine [] h = tt
chars-IsLine (c ∷ s) (hc, hs) = (ground arith, chars-IsLine s hs)

strip-IsKey : (k : Text) → IsKey k → strip is_space k ≡ k
unfolding join
strip-IsKey k i =
    strip-join is_space [] k [] (((λ e. cc (e, i.spelled)), chars-Fails k i.chars), tt)

pub name_line_read :
    (literal : Text → Option Value) (loading : Loading) (name : Text)
    → IsKey name
    → add_line literal loading (name_line name) ≡ ok (open_section loading name)
unfolding add_line starts_with
name_line_read literal loading name i = rw (strip_ends b'[' b']' name refl refl) (
    rw (without_last-append name b']')
      (rw (strip-IsKey name i) (rw (ends_with_last b']' (b'[' ∷ name)) (rw (solid name i) refl))))
  where
    solid : (k : Text) → IsKey k → is_empty k ≡ false
    solid [] i = absurd (cc i.spelled)
    solid (c ∷ k) i = refl

-- A value as it is written: its end is no space.
value_end :
    (v : Value)
    → IsWritable v
    → (x : Text) × (d : ℕ) × (value_text v ≡ x ++ d ∷ []) × (is_space d ≡ false)
value_end (a_text t) w = (b'"' ∷ t, b'"', refl, refl)
value_end (a_number n) w = absurd (cc w)
value_end (a_flag true) w = (codes "tru", b'e', refl, refl)
value_end (a_flag false) w = (codes "fals", b'e', refl, refl)

strip-value_text : (v : Value) → IsWritable v → strip is_space (value_text v) ≡ value_text v
unfolding strip lstrip rstrip
strip-value_text (a_text t) w = strip_ends b'"' b'"' t refl refl
strip-value_text (a_number n) w = absurd (cc w)
strip-value_text (a_flag true) w = refl
strip-value_text (a_flag false) w = refl

-- What ast.literal_eval is documented to do with a text in quotes. A NUL and a surrogate, at which
-- it raises, are not plain.
abbrev pub ReadsQuoted : (Text → Option Value) → Type 0
ReadsQuoted literal = (t : Text) → all_of is_plain t ≡ true → literal (quoted t) ≡ some (a_text t)

module _ (literal : Text → Option Value) (reads : ReadsQuoted literal) where
  parse-value_text :
      (v : Value) → IsWritable v → parse_simple_toml_value literal (value_text v) ≡ ok v
  unfolding parse_simple_toml_value lower text_eq
  parse-value_text (a_text t) w = rw (reads t w) refl
  parse-value_text (a_number n) w = absurd (cc w)
  parse-value_text (a_flag true) w = refl
  parse-value_text (a_flag false) w = refl

  pub binding_line_read :
      (sections : Dict Section) (name k : Text) (v : Value)
      → IsKey k
      → IsWritable v
      → add_line literal (record { sections = sections; section = some name }) (binding_line (k, v))
        ≡ ok (assign sections name k v)
  unfolding add_line starts_with
  binding_line_read sections name [] v i w = absurd (cc i.spelled)
  binding_line_read sections name (c ∷ k) v i w =
      let (hc, hs) = i.chars in
      let hash : (b'#' == c) ≡ false = ground arith in
      let bracket : (b'[' == c) ≡ false = ground arith in
      rw (stripped c k (ground arith) (value_end v w)) (
        rw (hash, bracket)
          (rw (partition-append b'=' (c ∷ k) (value_text v) (chars-Lacks (c ∷ k) i.chars)) (
            rw (strip-value_text v w)
              (rw (strip-IsKey (c ∷ k) i) (rw (parse-value_text v w) refl)))))
    where
      stripped :
          (c : ℕ) (k : Text)
          → is_space c ≡ false
          → (x : Text) × (d : ℕ) × (value_text v ≡ x ++ d ∷ []) × (is_space d ≡ false)
          → strip is_space (c ∷ (k ++ b'=' ∷ value_text v)) ≡ c ∷ (k ++ b'=' ∷ value_text v)
      stripped c k p (x, d, e, q) =
          rw e (rw (← append_assoc k (b'=' ∷ x) (d ∷ [])) (strip_ends c d (k ++ b'=' ∷ x) p q))
