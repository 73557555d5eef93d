-- ===== src/Deploy/Harmless.antt =====
-- The scripts of countdowns and downloads.
use openipc_tftp.Common.{
  ℕ, zero, suc, ◌≡◌, refl, Bool, true, false, List, [], ◌∷◌, ◌++◌, Result, ok, err, All, All-append,
  inl, inr, Bool-cases, Ensures, Ensures-bind, if◌then◌else◌, ◌==◌, ◌⊎◌,
}
use openipc_tftp.Common.Text.{Text, codes, starts_with}
use openipc_tftp.Jobs.{ArtifactState, DownloadArtifact}
use openipc_tftp.Scripted.Setting.{Download, file_exists, get_download, acquire_download}
use openipc_tftp.Tasks.{gives, asks, from_result, exec}
use openipc_tftp.Term.{uboot_status, uboot_progress, uboot_status_complete, echo, style}
use openipc_tftp.Ops.{
  normalize_cmds, countdown, uboot_exec_delay, uboot_boot, progress_of, is_done, is_failed, checked,
  page_parses, file_bytes, flag_of, artifact_of, download_progress_lines, poll_download,
  fetch_download, uboot_download_url,
}
use openipc_tftp.Deploy.Quiet.{with_message, normalize_cmds-IsQuiet}
use openipc_tftp.Deploy.Guarded.{
  Stage, Guarded, Guarded-bind, both-Guarded, Gives, Anything, from_result-Guarded, any-Guarded,
  IsQuiet, exec-Guarded,
}

uboot_progress-IsQuiet :
    (x total : ℕ) (color : Text) (bold : Bool) → Ensures IsQuiet (uboot_progress x total color bold)
unfolding uboot_progress uboot_status echo starts_with
uboot_progress-IsQuiet x total color bold = Ensures-bind IsQuiet (style color bold) _ (λ s e. refl)

countdown-Guarded :
    (s : Stage) (intro : List Text) (width step left : ℕ)
    → All IsQuiet intro
    → Guarded Anything s (countdown intro width step left)
unfolding countdown
countdown-Guarded s intro width step zero q = tt
countdown-Guarded s intro width step (suc left) q =
    Guarded-bind (Gives IsQuiet) Anything s
      (from_result (uboot_progress step width (codes "white") false)) _
      (from_result-Guarded IsQuiet s _ (uboot_progress-IsQuiet step width (codes "white") false))
      λ s progress p.
        both-Guarded s (exec (if step == 0 then intro ++ progress ∷ [] else progress ∷ []) false [])
          _ (exec-Guarded s _ false [] (shown progress p (Bool-cases (step == 0))))
          λ s u. countdown-Guarded s intro width (suc step) left q
  where
    shown :
        (progress : Text)
        → IsQuiet progress
        → (step == 0 ≡ true) ⊎ (step == 0 ≡ false)
        → All IsQuiet (if step == 0 then intro ++ progress ∷ [] else progress ∷ [])
    shown progress p (inl e) = rw e (All-append IsQuiet intro (progress ∷ []) q (p, tt))
    shown progress p (inr e) = rw e (p, tt)

uboot_exec_delay-Guarded :
    (s : Stage) (msg : Text) (seconds : ℕ) (cmds : List Text) (final : Bool)
    → All IsQuiet cmds
    → Guarded Anything s (uboot_exec_delay msg seconds cmds final)
unfolding uboot_exec_delay
uboot_exec_delay-Guarded s msg seconds cmds final q =
    with_message Anything s msg (codes "white") false true _ λ first p.
      with_message Anything s (codes "Enter Ctrl+C to cancel...") (codes "white") false true _
        λ second r.
          both-Guarded s (countdown (first ∷ second ∷ []) seconds 0 seconds) _
            (countdown-Guarded s (first ∷ second ∷ []) seconds 0 seconds (p, (r, tt)))
            λ s u. exec-Guarded s (normalize_cmds cmds) final [] (normalize_cmds-IsQuiet cmds q)

pub uboot_boot-Guarded : (s : Stage) (delay : ℕ) → Guarded Anything s (uboot_boot delay)
unfolding uboot_boot starts_with
uboot_boot-Guarded s delay =
    with_message Anything s (codes "uboot-tftp: Executing normal boot...") (codes "green") false
      true _
      λ msg p. uboot_exec_delay-Guarded s _ delay (msg ∷ codes "boot" ∷ []) true (p, (refl, tt))

download_progress_lines-IsQuiet :
    (artifact : DownloadArtifact) → Ensures (All IsQuiet) (download_progress_lines artifact)
unfolding download_progress_lines
download_progress_lines-IsQuiet artifact = lines _ (status _)
  where
    status : (msg : Text) → Ensures IsQuiet (uboot_status msg (codes "green") false)
    status msg =
        unfold uboot_status echo starts_with in
        Ensures-bind IsQuiet (style (codes "green") false) _ (λ s e. refl)

    lines :
        (r : Result Text) → Ensures IsQuiet r → Ensures (All IsQuiet) (progress_of artifact.state r)
    lines (err e) h = unfold progress_of in tt
    lines (ok line) h =
        unfold progress_of uboot_status_complete echo starts_with in (h, last artifact.state)
      where
        last :
            (state : ArtifactState)
            → All IsQuiet (if is_done state then uboot_status_complete ∷ [] else [])
        last state =
            unfold uboot_status_complete echo starts_with in
            elim (Bool-cases (is_done state)) [ inl e ↦ rw e (refl, tt) | inr e ↦ rw e tt ]

file_bytes-Guarded : (s : Stage) (path : Text) → Guarded Anything s (file_bytes path)
file_bytes-Guarded s path = λ r. any-Guarded _ _

poll_download-Guarded :
    (s : Stage) (fuel : ℕ) (url filepath : Text)
    → Guarded Anything s (poll_download fuel url filepath)
unfolding poll_download
poll_download-Guarded s zero url filepath = tt
poll_download-Guarded s (suc fuel) url filepath =
    both-Guarded s (asks (get_download url) (λ r. from_result (artifact_of r))) _
      (λ r. any-Guarded _ _)
      λ s artifact.
        Guarded-bind (Gives (All IsQuiet)) Anything s
          (from_result (download_progress_lines artifact)) _
          (from_result-Guarded (All IsQuiet) s _ (download_progress_lines-IsQuiet artifact))
          λ s ls q. both-Guarded s (exec ls false []) _ (exec-Guarded s ls false [] q) λ s u.
            elim (Bool-cases (is_done artifact.state)) [
              | inl e ↦ rw e (file_bytes-Guarded s filepath)
              | inr e ↦ rw e (elim (Bool-cases (is_failed artifact.state)) [
                | inl f ↦ rw f tt
                | inr f ↦ rw f (poll_download-Guarded s fuel url filepath)
              ])
            ]

checked-Guarded : (s : Stage) (passed : Bool) → Guarded Anything s (checked passed)
checked-Guarded s true = tt
checked-Guarded s false = tt

fetch_download-Guarded :
    (s : Stage) (fuel : ℕ) (parses : Text → Bool) (d : Download)
    → Guarded Anything s (fetch_download fuel parses d)
unfolding fetch_download
fetch_download-Guarded s fuel parses d =
    both-Guarded s (checked (parses d.url)) _ (checked-Guarded s _) λ s u.
      both-Guarded s (checked (page_parses parses d.page_url)) _ (checked-Guarded s _) λ s u.
        both-Guarded s (asks (acquire_download d) (λ r. from_result (artifact_of r))) _
          (λ r. any-Guarded _ _)
          λ s artifact.
            with_message Anything s (codes "Downloading " ++ (d.destination ++ codes ": "))
              (codes "green") true false _
              λ msg q.
                both-Guarded s (exec (msg ∷ []) false []) _
                  (exec-Guarded s (msg ∷ []) false [] (q, tt))
                  λ s u. poll_download-Guarded s fuel d.url d.destination

pub uboot_download_url-Guarded :
    (s : Stage) (fuel : ℕ) (parses : Text → Bool) (d : Download) (cache : Bool)
    → Guarded Anything s (uboot_download_url fuel parses d cache)
unfolding uboot_download_url
uboot_download_url-Guarded s fuel parses d cache =
    both-Guarded s _ _ (asked (Bool-cases cache)) λ s cached. elim (Bool-cases cached) [
      | inl e ↦ rw e (
          with_message Anything s (codes "Using cached download: " ++ d.destination) (codes "green")
            true true _
            λ msg q.
              both-Guarded s (exec (msg ∷ []) false []) _
                (exec-Guarded s (msg ∷ []) false [] (q, tt))
                λ s u. file_bytes-Guarded s d.destination)
      | inr e ↦ rw e (fetch_download-Guarded s fuel parses d)
    ]
  where
    asked :
        (cache ≡ true) ⊎ (cache ≡ false)
        → Guarded Anything s (
            if cache
            then asks (file_exists d.destination) (λ r. from_result (flag_of r))
            else gives false)
    asked (inl e) = rw e (λ r. any-Guarded _ _)
    asked (inr e) = rw e tt
