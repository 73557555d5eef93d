-- ===== src/Deploy/BackedUp.antt =====
-- The installation, and when it erases the flash.
use openipc_tftp.Common.{
  ℕ, true, false, List, [], ◌∷◌, ◌++◌, Option, All, All-append, is_empty, inl, inr, ◌/◌,
  if◌then◌else◌, Bool-cases,
}
use openipc_tftp.Common.Text.{Text, codes}
use openipc_tftp.Common.Digits.{str}
use openipc_tftp.Common.Dict.{Dict}
use openipc_tftp.Scripted.Setting.{many}
use openipc_tftp.Scripted.Texts.{subscript}
use openipc_tftp.Tasks.{Task, ◌>>=◌, from_result, exec, env_find, fetch_env, default_export}
use openipc_tftp.Deploy.{check_install_args}
use openipc_tftp.Deploy.Install.{
  set_default, probe, Host, openipc_nor_backup, openipc_install, overridden, nor_complaints,
  back_up_and_flash,
}
use openipc_tftp.Deploy.Steps.{
  IsSaved, overridden-Guarded, check_install_args-IsQuiet, nor_complaints-Guarded,
  openipc_nor_backup-Guarded,
}
use openipc_tftp.Deploy.Quiet.{with_message, fetch_env-Guarded, uboot_nor_probe-Guarded}
use openipc_tftp.Deploy.Guarded.{
  Stage, unsaved, Guarded, Guarded-bind, Gives, Anything, saved-Guarded, from_result-Guarded,
  any-Guarded, IsQuiet, exec-Guarded, env_find-Guarded,
}

module _ (host : Host) where
  -- Behind a backup, everything may come.
  behind_backup :
      (s : Stage) (count sz : ℕ) (filename : Text) (next : Unit {0} → Task (Unit {0}))
      → Guarded Anything s (openipc_nor_backup host count sz filename false >>= next)
  behind_backup s count sz filename next =
      Guarded-bind IsSaved Anything s (openipc_nor_backup host count sz filename false) next
        (openipc_nor_backup-Guarded host s count sz filename false)
        λ t u e. rw e (saved-Guarded (next u))

  probe-Guarded : (s : Stage) (max_size : Option Text) → Guarded Anything s (probe host max_size)
  probe-Guarded s max_size =
      with_message Anything s (codes "Probing NOR flash... ") (codes "green") true false _
        λ probing p.
          with_message Anything s (codes "${size}") (codes "green") false true _ λ found q.
            uboot_nor_probe-Guarded s host.rambase _ (probing ∷ []) (found ∷ []) false (p, tt)
              (q, tt)

  back_up_and_flash-Guarded :
      (s : Stage) (ident : Text) (cenv : Dict Text) (nor_size : ℕ)
      → Guarded Anything s (back_up_and_flash host ident cenv nor_size)
  unfolding back_up_and_flash
  back_up_and_flash-Guarded s ident cenv nor_size =
      Guarded-bind Anything Anything s (from_result (subscript cenv (codes "fw"))) _
        (any-Guarded s _)
        λ t fw _.
          Guarded-bind Anything Anything t (from_result (subscript cenv (codes "vendor"))) _
            (any-Guarded t _)
            λ t vendor _.
              Guarded-bind Anything Anything t (from_result (subscript cenv (codes "soc"))) _
                (any-Guarded t _)
                λ t soc _.
                  with_message Anything t (codes "Backing up NOR flash.") (codes "green") true true
                    _
                    λ line q.
                      Guarded-bind Anything Anything t (exec (line ∷ []) false []) _
                        (exec-Guarded t (line ∷ []) false [] (q, tt))
                        λ t u _.
                          behind_backup t host.count nor_size
                            (codes "install-backup-"
                              ++ (ident
                                  ++ (codes "-"
                                      ++ (soc
                                          ++ (codes "-"
                                              ++ (str (nor_size / 0x100000)
                                                  ++ (codes "mb-"
                                                      ++ (host.stamp ++ codes ".bin"))))))))
                            _

  -- Whatever the client and the provider answer, openipc_install sends a script with a line that
  -- erases flash, as uboot_nor_erase prints it, only if before that the last upload of the client was
  -- written to a file below backup/ and the write succeeded.
  pub openipc_install-Guarded :
      (ident : Text) → Guarded Anything unsaved (openipc_install host ident)
  unfolding openipc_install
  openipc_install-Guarded ident =
      let s = unsaved in
      with_message Anything s (codes "Fetching current uboot environment... ") (codes "green") true
        false _
        λ fetching q.
          Guarded-bind Anything Anything s
            (fetch_env (default_export host.rambase) (many (fetching ∷ [])) (codes "filesize")) _
            (fetch_env-Guarded s host.rambase fetching (codes "filesize") q)
            λ s fetched _.
              with_message Anything s (codes "OK") (codes "green") false true _ λ fine q.
                Guarded-bind Anything Anything s (exec (fine ∷ []) false []) _
                  (exec-Guarded s (fine ∷ []) false [] (q, tt))
                  λ s u _.
                    Guarded-bind Anything Anything s (overridden host fetched keys) _
                      (overridden-Guarded host s fetched keys)
                      λ s merged _.
                        Guarded-bind Anything Anything s (env_find (codes "nor_size")) _
                          (env_find-Guarded s (codes "nor_size"))
                          λ s max_size _.
                            Guarded-bind Anything Anything s (probe host max_size) _
                              (probe-Guarded s max_size)
                              λ s nor_size _. checked s (cenv_of merged) nor_size
    where
      keys : List Text
      keys = codes "nor_size" ∷ codes "fw" ∷ codes "vendor" ∷ codes "soc" ∷ []

      cenv_of : Dict Text → Dict Text
      cenv_of merged =
          set_default host (set_default host merged (codes "fw") (codes "lite")) (codes "ip")
            (codes "dhcp")

      checked :
          (s : Stage) (cenv : Dict Text) (nor_size : ℕ)
          → Guarded Anything s (
              from_result (check_install_args host.rambase host.cmdtftp cenv) >>= λ args.
              from_result (subscript cenv (codes "fw")) >>= λ fw.
              nor_complaints host nor_size fw >>= λ flash.
              if is_empty (args ++ flash)
              then back_up_and_flash host ident cenv nor_size
              else exec (args ++ flash) true [])
      checked s cenv nor_size =
          let P : List Text → Type 0 = All IsQuiet in
          Guarded-bind (Gives P) Anything s
            (from_result (check_install_args host.rambase host.cmdtftp cenv)) _
            (from_result-Guarded P s _ (check_install_args-IsQuiet host.rambase host.cmdtftp cenv))
            λ s args h.
              Guarded-bind Anything Anything s (from_result (subscript cenv (codes "fw"))) _
                (any-Guarded s _)
                λ s fw _.
                  Guarded-bind (Gives P) Anything s (nor_complaints host nor_size fw) _
                    (nor_complaints-Guarded host s nor_size fw)
                    λ s flash k. elim (Bool-cases (is_empty (args ++ flash))) [
                      | inl e ↦ rw e (back_up_and_flash-Guarded s ident cenv nor_size)
                      | inr e ↦ rw e (
                          exec-Guarded s (args ++ flash) true []
                            (All-append IsQuiet args flash h k))
                    ]
