-- ===== src/Deploy/Steps.antt =====
-- The steps of an installation up to the backup of its flash.
use openipc_tftp.Common.{
  ℕ, ◌+◌, ◌≡◌, refl, Bool, true, false, not, ◌&&◌, ◌||◌, List, [], ◌∷◌, ◌++◌, none, some, Result,
  ok, err, All, All-append, is_empty, ltb, ◌==◌, inl, inr, Ensures, Ensures-bind, Ensures-value,
  ◌⊎◌, ◌/◌, if◌then◌else◌, guard, name_error, Bool-cases,
}
use openipc_tftp.Common.Text.{Text, Bytes, codes, text_eq, text_eq_refl, starts_with, join}
use openipc_tftp.Common.Dict
use openipc_tftp.Common.Dict.{Dict}
use openipc_tftp.Scripted.Setting.{write_file, Answer, many, number}
use openipc_tftp.Scripted.Texts.{subscript}
use openipc_tftp.Snippets.{uboot_memset, uboot_nor_read, nor_transfer}
use openipc_tftp.Tasks.{gives, from_result, exec, exec_recv, env_find}
use openipc_tftp.Term.{uboot_err}
use openipc_tftp.Ops.{normalize_cmds, uboot_nor_download}
use openipc_tftp.Deploy.{complaint, check_install_args}
use openipc_tftp.Deploy.Install.{
  store, stored, Host, openipc_nor_backup, overridden, nor_complaints,
}
use openipc_tftp.Deploy.Quiet.{uboot_err-IsQuiet, with_message, normalize_cmds-IsQuiet}
use openipc_tftp.Deploy.Guarded.{
  after, received, Stage, unsaved, saved, uploaded, Guarded, Guarded-bind, Gives, Anything, IsQuiet,
  quiet, env_find-Guarded,
}

pub overridden-Guarded :
    (host : Host) (s : Stage) (env : Dict Text) (keys : List Text)
    → Guarded Anything s (overridden host env keys)
unfolding overridden
overridden-Guarded host s env [] = tt
overridden-Guarded host s env (key ∷ keys) =
    Guarded-bind Anything Anything s (env_find key) _ (env_find-Guarded s key) λ t found _.
      overridden-Guarded host t (elim found [ none ↦ env | some v ↦ Dict.put env key v ]) keys

complaint-IsQuiet : (passed : Bool) (msg : Text) → Ensures (All IsQuiet) (complaint passed msg)
unfolding complaint
complaint-IsQuiet true msg = tt
complaint-IsQuiet false msg =
    Ensures-bind (All IsQuiet) (uboot_err msg (codes "red") true) _
      λ line e. (Ensures-value IsQuiet _ (uboot_err-IsQuiet msg (codes "red") true) e, tt)

pub check_install_args-IsQuiet :
    (rambase cmdtftp : Text) (env : Dict Text)
    → Ensures (All IsQuiet) (check_install_args rambase cmdtftp env)
unfolding check_install_args
check_install_args-IsQuiet rambase cmdtftp env =
    let P : List Text → Type 0 = All IsQuiet in
    let has_vendor = Dict.has_key env (codes "vendor") in
    let has_soc = Dict.has_key env (codes "soc") in
    let vendor_text = codes "Must pass vendor=name" in
    let soc_text = codes "Must pass soc=name" in
    let ie =
      codes "ie: "
      ++ (cmdtftp
          ++ (codes " "
              ++ (rambase
                  ++ codes
                      " {tftp.server_ip}:id={ident}/{cmd}/vendor=goke/soc=gk7205v300/fw=lite; source {tftp.rambase}"))) in
    Ensures-bind P (complaint has_vendor vendor_text) _ λ vendor e.
      Ensures-bind P (complaint has_soc soc_text) _ λ soc f.
        Ensures-bind P (subscript env (codes "fw")) _ λ fw _.
          Ensures-bind P
            (guard (text_eq fw (codes "lite") || text_eq fw (codes "ultimate")) name_error) _
            λ u _. Ensures-bind P (complaint (is_empty (vendor ++ soc)) ie) _ λ example g.
              All-append IsQuiet vendor (soc ++ example)
                (Ensures-value P _ (complaint-IsQuiet has_vendor vendor_text) e)
                (All-append IsQuiet soc example
                  (Ensures-value P _ (complaint-IsQuiet has_soc soc_text) f)
                  (Ensures-value P _ (complaint-IsQuiet (is_empty (vendor ++ soc)) ie) g))

pub nor_complaints-Guarded :
    (host : Host) (s : Stage) (nor_size : ℕ) (fw : Text)
    → Guarded (Gives (All IsQuiet)) s (nor_complaints host nor_size fw)
unfolding nor_complaints uboot_err
nor_complaints-Guarded host s nor_size fw = elim (Bool-cases (nor_size == 0)) [
  | inl e ↦ rw e (
      with_message (Gives (All IsQuiet)) s (codes "NOR flash not detected! Aborting...")
        (codes "red") true true (λ line. gives (line ∷ [])) λ line q. (q, tt))
  | inr e ↦ rw e (elim (Bool-cases (not (nor_size / 0x100000 == 8 || nor_size / 0x100000 == 16))) [
    | inl f ↦ rw f (
        with_message (Gives (All IsQuiet)) s (codes "Only 8M or 16M NOR flash supported.")
          (codes "red") true true (λ line. gives (line ∷ [])) λ line q. (q, tt))
    | inr f ↦
        rw f (elim (Bool-cases (ltb (nor_size / 0x100000) 16 && text_eq fw (codes "ultimate"))) [
          | inl g ↦ rw g tt
          | inr g ↦ rw g tt
        ])
  ])
]

abbrev pub IsSaved : {A : Type 0} → Stage → A → Type 0
IsSaved s a = s ≡ saved

-- What an upload that just came leaves: it, unless there was a backup before.
abbrev HasBody : Stage → Bytes → Type 0
HasBody s body = (s ≡ saved) ⊎ (s ≡ uploaded body)

received-HasBody : (s : Stage) (body : Bytes) → HasBody (received s (ok body)) body
received-HasBody unsaved body = inr refl
received-HasBody saved body = inl refl
received-HasBody (uploaded other) body = inr refl

after-IsSaved :
    (s : Stage) (name : Text) (body : Bytes) (answer : Answer)
    → HasBody s body
    → after s (write_file (codes "backup/" ++ name) body) (ok answer) ≡ saved
unfolding starts_with
after-IsSaved s name body answer (inl e) = rw e refl
after-IsSaved s name body answer (inr e) = rw e (rw (text_eq_refl body) refl)

exec_recv-Guarded :
    (s : Stage) (ls : List Text) (size : ℕ)
    → All IsQuiet ls
    → Guarded HasBody s (exec_recv (many ls) size)
exec_recv-Guarded s ls size q = ((λ e. absurd (cc (quiet ls q, e))), λ r. body_of r)
  where
    body_of : (r : Result Bytes) → Guarded HasBody (received s r) (from_result r)
    body_of (ok body) = received-HasBody s body
    body_of (err e) = tt

store-Guarded :
    (s : Stage) (name : Text) (body : Bytes)
    → HasBody s body
    → Guarded IsSaved s (store (codes "backup/" ++ name) body)
store-Guarded s name body h = λ r. answered r
  where
    answered :
        (r : Result Answer)
        → Guarded IsSaved
            (after s (write_file (codes "backup/" ++ name) body) r)
            (from_result (stored r))
    answered (ok answer) = after-IsSaved s name body answer h
    answered (err e) = tt

last-Guarded :
    (s : Stage) (ls : List Text) (final : Bool) → s ≡ saved → Guarded IsSaved s (exec ls final [])
last-Guarded s ls final h = ((λ e. h), λ r. ended r)
  where
    ended : (r : Result (Unit {0})) → Guarded IsSaved s (from_result r)
    ended (ok u) = h
    ended (err e) = tt

pub openipc_nor_backup-Guarded :
    (host : Host) (s : Stage) (count sz : ℕ) (filename : Text) (final : Bool)
    → Guarded IsSaved s (openipc_nor_backup host count sz filename final)
unfolding openipc_nor_backup uboot_nor_download uboot_memset uboot_nor_read nor_transfer join
    starts_with
openipc_nor_backup-Guarded host s count sz filename final =
    with_message IsSaved s (codes "Copying NOR to RAM... ") (codes "green") true false _
      λ copying p. with_message IsSaved s (codes "OK") (codes "green") false true _ λ copied q.
        with_message IsSaved s (codes "Downloading backup via TFTP...") (codes "green") true true _
          λ downloading r.
            Guarded-bind HasBody IsSaved s (exec_recv (many (script copying copied downloading)) sz)
              _
              (exec_recv-Guarded s (script copying copied downloading) sz
                (quiet_script copying copied downloading p q r))
              λ t body h.
                Guarded-bind IsSaved IsSaved t (store (codes "backup/" ++ name) body) _
                  (store-Guarded t name body h)
                  λ t u e.
                    with_message IsSaved t (codes "  Saved backup as backup/" ++ name)
                      (codes "green") false true _ λ line i. last-Guarded t (line ∷ []) final e
  where
    name : Text
    name = if is_empty filename then codes "snapshot-" ++ (host.stamp ++ codes ".bin") else filename

    transfer : List Text
    transfer =
        uboot_memset host.rambase count (number 0) (number 0xff) (number sz) none
        ∷ uboot_nor_read host.rambase (count + 1) (number 0) (number 0) (number sz) none
        ∷ []

    script : Text → Text → Text → List Text
    script copying copied downloading =
        normalize_cmds (copying ∷ []) ++ (transfer ++ normalize_cmds (copied ∷ downloading ∷ []))

    quiet_script :
        (copying copied downloading : Text)
        → IsQuiet copying
        → IsQuiet copied
        → IsQuiet downloading
        → All IsQuiet (script copying copied downloading)
    quiet_script copying copied downloading p q r =
        All-append IsQuiet (normalize_cmds (copying ∷ [])) _
          (normalize_cmds-IsQuiet (copying ∷ []) (p, tt))
          (refl, (refl, normalize_cmds-IsQuiet (copied ∷ downloading ∷ []) (q, (r, tt))))
