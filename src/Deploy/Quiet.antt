-- ===== src/Deploy/Quiet.antt =====
-- Scripts of an installation that do not erase the flash.
use openipc_tftp.Common.{
  ℕ, zero, suc, ◌*◌, refl, Bool, true, false, List, [], ◌∷◌, ◌++◌, Option, none, some, Result, ok,
  err, All, All-append, is_empty, ltb, inl, inr, Ensures, Ensures-bind, value_error, key_error,
  Bool-cases,
}
use openipc_tftp.Common.Text.{Text, codes, text_eq, starts_with}
use openipc_tftp.Scripted.Setting.{many, Offset}
use openipc_tftp.Snippets.{
  size_line, read_line, if_line, else_line, fi_line, probe_lines, uboot_nor_gen_probe,
}
use openipc_tftp.Tasks.{
  Task, ◌>>=◌, from_result, exec, env_find, env_value, or_raise, fetch_env, parse_uboot_number,
  default_export, exec_recv,
}
use openipc_tftp.Term.{restore_cursor, clear_region, uboot_msg, uboot_err, echo, style}
use openipc_tftp.Ops.{
  normalize_cmds, uboot_nor_probe, parse_max_size, probe_size, lines_or_stuck, int_literal,
}
use openipc_tftp.Deploy.Guarded.{
  Stage, Guarded, Guarded-bind, Gives, Anything, any-Guarded, IsQuiet, quiet, exec-Guarded,
  env_find-Guarded,
}

pub uboot_msg-IsQuiet :
    (msg color : Text) (bold nl : Bool) → Ensures IsQuiet (uboot_msg msg color bold nl)
unfolding uboot_msg echo starts_with
uboot_msg-IsQuiet msg color bold nl = Ensures-bind IsQuiet (style color bold) _ (λ s e. refl)

pub uboot_err-IsQuiet :
    (msg color : Text) (bold : Bool) → Ensures IsQuiet (uboot_err msg color bold)
unfolding uboot_err
uboot_err-IsQuiet msg color bold = uboot_msg-IsQuiet msg color bold true

-- A message, and what follows it.
pub with_message :
    {A : Type 0} (P : Stage → A → Type 0) (s : Stage) (msg color : Text) (bold nl : Bool)
    (next : Text → Task A)
    → ((line : Text) → IsQuiet line → Guarded P s (next line))
    → Guarded P s (from_result (uboot_msg msg color bold nl) >>= next)
with_message P s msg color bold nl next h =
    go (uboot_msg msg color bold nl) (uboot_msg-IsQuiet msg color bold nl)
  where
    go : (r : Result Text) → Ensures IsQuiet r → Guarded P s (from_result r >>= next)
    go (ok line) i = unfold ◌>>=◌ in h line i
    go (err e) i = unfold ◌>>=◌ in tt

pub normalize_cmds-IsQuiet :
    (cmds : List Text) → All IsQuiet cmds → All IsQuiet (normalize_cmds cmds)
unfolding normalize_cmds
normalize_cmds-IsQuiet [] h = tt
normalize_cmds-IsQuiet (c ∷ cmds) (hc, hs) =
    let rest = normalize_cmds-IsQuiet cmds hs in
    elim (Bool-cases (is_empty c)) [ inl e ↦ rw e rest | inr e ↦ rw e (hc, rest) ]

abbrev AreQuiet : Option (List Text) → Type 0
AreQuiet none = Unit
AreQuiet (some ls) = All IsQuiet ls

probe_lines-AreQuiet :
    (fuel : ℕ) (base : Text) (offset max_sz known_good sz : ℕ)
    → AreQuiet (probe_lines fuel base offset max_sz known_good sz)
unfolding probe_lines starts_with
probe_lines-AreQuiet zero base offset max_sz known_good sz = tt
probe_lines-AreQuiet (suc fuel) base offset max_sz known_good sz =
    elim (Bool-cases (ltb max_sz sz)) [
      | inl e ↦ rw (e, probe_lines) (refl, tt)
      | inr e ↦
          rw (e, probe_lines)
            (around (probe_lines fuel base offset max_sz sz (sz * 2))
              (probe_lines-AreQuiet fuel base offset max_sz sz (sz * 2)))
    ]
  where
    around :
        (inner : Option (List Text))
        → AreQuiet inner
        → AreQuiet (elim inner [
          | none ↦ none
          | some ls ↦ some (
              (codes "echo " ++ (restore_cursor ++ clear_region))
              ∷ read_line base offset sz
              ∷ if_line
              ∷ size_line known_good
              ∷ else_line
              ∷ (ls ++ fi_line ∷ []))
        ])
    around none h = tt
    around (some ls) h =
        (refl, (refl, (refl, (refl, (refl, All-append IsQuiet ls (fi_line ∷ []) h (refl, tt))))))

pub env_value-Guarded : (s : Stage) (key : Text) → Guarded Anything s (env_value key)
env_value-Guarded s key =
    Guarded-bind Anything Anything s (env_find key) _ (env_find-Guarded s key)
      (λ t found _. any-Guarded t (or_raise key_error found))

pub fetch_env-Guarded :
    (s : Stage) (rambase line key : Text)
    → IsQuiet line
    → Guarded Anything s (fetch_env (default_export rambase) (many (line ∷ [])) key)
unfolding fetch_env starts_with
fetch_env-Guarded s rambase line key q =
    Guarded-bind Anything Anything s
      (exec ((codes "env export -t " ++ rambase) ∷ []) false (key ∷ [])) _
      (exec-Guarded s ((codes "env export -t " ++ rambase) ∷ []) false (key ∷ []) (refl, tt))
      λ t u _.
        Guarded-bind Anything Anything t (env_find key) _ (env_find-Guarded t key) λ t found _.
          Guarded-bind Anything Anything t (from_result (or_raise value_error found)) _
            (any-Guarded t _)
            λ t size_text _.
              Guarded-bind Anything Anything t (from_result (parse_uboot_number size_text)) _
                (any-Guarded t _)
                λ t size _.
                  Guarded-bind Anything Anything t (exec_recv (many (line ∷ [])) size) _
                    ((λ e. absurd (cc (quiet (line ∷ []) (q, tt), e))), λ r. any-Guarded _ r)
                    λ t body _. tt

probe_size-Guarded :
    (s : Stage) (rambase : Text) (max_size : ℕ) (post_cmds : List Text) (final : Bool) (key : Text)
    → All IsQuiet post_cmds
    → Guarded Anything s (probe_size rambase max_size post_cmds final key)
unfolding probe_size uboot_nor_gen_probe
probe_size-Guarded s rambase max_size post_cmds final key q =
    Guarded-bind (Gives (All IsQuiet)) Anything s _ _
      (lines (uboot_nor_gen_probe rambase 0x100000 max_size 0 0 none)
        (probe_lines-AreQuiet (suc max_size) rambase 0 max_size 0 0x100000))
      λ t ls h.
        Guarded-bind Anything Anything t (exec (ls ++ normalize_cmds post_cmds) final (key ∷ [])) _
          (exec-Guarded t (ls ++ normalize_cmds post_cmds) final (key ∷ [])
            (All-append IsQuiet ls _ h (normalize_cmds-IsQuiet post_cmds q)))
          λ t u _.
            Guarded-bind Anything Anything t (env_value key) _ (env_value-Guarded t key)
              λ t size _. any-Guarded t (int_literal size)
  where
    lines :
        (o : Option (List Text)) → AreQuiet o → Guarded (Gives (All IsQuiet)) s (lines_or_stuck o)
    lines none h = tt
    lines (some ls) h = h

pub uboot_nor_probe-Guarded :
    (s : Stage) (rambase : Text) (max_size : Option Offset) (pre_cmds post_cmds : List Text)
    (final : Bool)
    → All IsQuiet pre_cmds
    → All IsQuiet post_cmds
    → Guarded Anything s
        (uboot_nor_probe rambase max_size pre_cmds post_cmds final (codes "status") (codes "size"))
unfolding uboot_nor_probe starts_with
uboot_nor_probe-Guarded s rambase max_size pre_cmds post_cmds final p q =
    Guarded-bind Anything Anything s (from_result (parse_max_size max_size)) _ (any-Guarded s _)
      λ t max _.
        let asks_status =
          codes "sf probe 0" ∷ (codes "setenv " ++ (codes "status" ++ codes " $?")) ∷ [] in
        let script = normalize_cmds pre_cmds ++ asks_status in
        let quiet_script =
          All-append IsQuiet (normalize_cmds pre_cmds) asks_status
            (normalize_cmds-IsQuiet pre_cmds p) (refl, (refl, tt)) in
        Guarded-bind Anything Anything t (exec script false (codes "status" ∷ [])) _
          (exec-Guarded t script false (codes "status" ∷ []) quiet_script)
          λ t u _.
            Guarded-bind Anything Anything t (env_value (codes "status")) _
              (env_value-Guarded t (codes "status"))
              λ t status _. elim (Bool-cases (text_eq status (codes "1"))) [
                | inl e ↦ rw e tt
                | inr e ↦ rw e (probe_size-Guarded t rambase max post_cmds final (codes "size") q)
              ]
