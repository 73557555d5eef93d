-- ===== src/Config/Toml/RoundTrip.antt =====
-- Reading sections that are written as simple TOML.
use openipc_tftp.Common.{
  ◌≡◌, refl, ap, ◌∙◌, true, false, List, [], ◌∷◌, ◌++◌, append_assoc, append-nil, Option, none,
  some, ok, arith, map, All, All-append, all_of,
}
use openipc_tftp.Common.Text.{Text, strip, lstrip, rstrip}
use openipc_tftp.Common.Dict.{
  Dict, Fresh, IsUnique, put-Fresh, get_last, put_last, has_key-Fresh, Fresh-IsUnique,
}
use openipc_tftp.Env.{is_env_key}
use openipc_tftp.Config.{Value, a_text, a_number, a_flag, Section}
use openipc_tftp.Config.Toml.{is_line_end, Loading, add_line, add_lines, load_simple_toml}
use openipc_tftp.Config.Toml.Written.{
  value_text, binding_line, section_lines, file_lines, print, is_plain, IsWritable,
  IsWritableSection, IsFile, IsLine, lines_in-ended,
}
use openipc_tftp.Config.Toml.Lines.{
  IsKey, is_env_key-IsKey, chars-IsLine, name_line_read, binding_line_read, ReadsQuoted,
}

module _ (literal : Text → Option Value) (reads : ReadsQuoted literal) where
  -- What a section of the file adds behind the sections that were read.
  abbrev behind : Dict Section → Text → Section → Loading
  behind done name section = record { sections = done ++ (name, section) ∷ []; section = some name }

  bindings_read :
      (done : Dict Section) (name : Text) (before section : Section)
      → Fresh name done
      → IsUnique (before ++ section)
      → All (λ (b : Text × Value). (is_env_key b.0 ≡ true) × IsWritable b.1) section
      → (rest : List Text)
      → add_lines literal (behind done name before) (map binding_line section ++ rest)
        ≡ add_lines literal (behind done name (before ++ section)) rest
  unfolding add_lines
  bindings_read done name before [] f u h rest = rw (append-nil before) refl
  bindings_read done name before ((k, v) ∷ section) f u ((hk, hv), hs) rest =
      rw
        (binding_line_read literal reads (done ++ (name, before) ∷ []) name k v
          (is_env_key-IsKey k hk) hv)
        (rw (get_last done name before f) (
          rw (put-Fresh before k v (Fresh-IsUnique before k v section u)) (
            rw (put_last done name before (before ++ (k, v) ∷ []) f) (
              bindings_read done name (before ++ (k, v) ∷ []) section f (rw (assoc before) u) hs
                rest
              ∙ ap (λ b. add_lines literal (behind done name b) rest) (assoc before)))))
    where
      assoc : (b : Section) → (b ++ (k, v) ∷ []) ++ section ≡ b ++ (k, v) ∷ section
      assoc b = append_assoc b ((k, v) ∷ []) section

  sections_read :
      (done : Dict Section) (current : Option Text) (file : Dict Section)
      → IsUnique (done ++ file)
      → All (λ (s : Text × Section). (is_env_key s.0 ≡ true) × IsWritableSection s.1) file
      → (last : Option Text) × (add_lines literal
            (record { sections = done; section = current })
            (file_lines file ++ [] ∷ [])
          ≡ ok (record { sections = done ++ file; section = last }))
  unfolding add_lines add_line strip lstrip rstrip
  sections_read done current [] u h = (current, rw (append-nil done) refl)
  sections_read done current ((name, section) ∷ file) u ((hn, (hu, hs)), hf) =
      let f = Fresh-IsUnique done name section file u in
      let (last, e) =
        sections_read (done ++ (name, section) ∷ []) (some name) file
          (rw (append_assoc done ((name, section) ∷ []) file) u) hf in
      (
        last,
        rw
            (name_line_read literal (record { sections = done; section = current }) name
              (is_env_key-IsKey name hn))
            (rw (has_key-Fresh done name f) (
              rw (put-Fresh done name [] f) (
                rw (append_assoc (map binding_line section) (file_lines file) ([] ∷ [])) (
                  bindings_read done name [] section f hu hs (file_lines file ++ [] ∷ [])
                  ∙ (e
                      ∙ ap (λ d. ok (record { sections = d; section = last }))
                          (append_assoc done ((name, section) ∷ []) file)))))),
      )

value-IsLine : (v : Value) → IsWritable v → IsLine (value_text v)
value-IsLine (a_text t) w =
    (refl, All-append (λ c. is_line_end c ≡ false) t (b'"' ∷ []) (plain t w) (refl, tt))
  where
    plain : (t : Text) → all_of is_plain t ≡ true → IsLine t
    plain [] h = tt
    plain (c ∷ t) h = (ground arith, plain t (ground arith))
value-IsLine (a_number n) w = absurd (cc w)
value-IsLine (a_flag true) w = (refl, (refl, (refl, (refl, tt))))
value-IsLine (a_flag false) w = (refl, (refl, (refl, (refl, (refl, tt)))))

name-IsLine : (name : Text) → is_env_key name ≡ true → IsLine name
name-IsLine name h = chars-IsLine name (IsKey.chars (is_env_key-IsKey name h))

section-IsLine :
    (section : Section)
    → All (λ (b : Text × Value). (is_env_key b.0 ≡ true) × IsWritable b.1) section
    → All IsLine (map binding_line section)
section-IsLine [] h = tt
section-IsLine ((k, v) ∷ section) ((hk, hv), hs) = (
  All-append (λ c. is_line_end c ≡ false) k (b'=' ∷ value_text v) (name-IsLine k hk)
      (refl, value-IsLine v hv),
  section-IsLine section hs,
)

file-IsLine :
    (file : Dict Section)
    → All (λ (s : Text × Section). (is_env_key s.0 ≡ true) × IsWritableSection s.1) file
    → All IsLine (file_lines file)
file-IsLine [] h = tt
file-IsLine ((name, section) ∷ file) ((hn, (hu, hs)), hf) =
    All-append IsLine (section_lines (name, section)) (file_lines file)
      (
        (
          refl,
          All-append (λ c. is_line_end c ≡ false) name (b']' ∷ []) (name-IsLine name hn) (refl, tt),
        ),
        section-IsLine section hs,
      )
      (file-IsLine file hf)

-- Where ast.literal_eval reads a text in double quotes that has no escapes, the sections of a file,
-- each written as `[name]` and a line `key=value` for each value, are read back as they are, in their
-- order: for names and keys of letters, digits, `_`, `.` and `-`, each of which stands once, and
-- values that are flags or texts of code points that are no surrogates, control characters below the
-- space, line ends, double quotes or backslashes.
pub load-print :
    (literal : Text → Option Value)
    → ReadsQuoted literal
    → (file : Dict Section) → IsFile file
    → load_simple_toml literal (print file) ≡ ok file
unfolding load_simple_toml
load-print literal reads file (u, h) =
    let (last, e) = sections_read literal reads [] none file u h in
    rw (lines_in-ended (file_lines file) (file-IsLine file h)) (rw e refl)
