-- ===== src/Deploy/Handled.antt =====
-- The commands of the handler, and when they erase the flash.
use openipc_tftp.Common.{inl, inr, Bool-cases}
use openipc_tftp.Common.Text.{Text}
use openipc_tftp.Common.Dict.{Dict}
use openipc_tftp.Scripted.Setting.{file_exists}
use openipc_tftp.Tasks.{asks, from_result}
use openipc_tftp.Ops.{flag_of, file_bytes}
use openipc_tftp.Deploy.Install.{Host}
use openipc_tftp.Deploy.Manifest.{Json, GithubJsonManifest, load_cached_manifest}
use openipc_tftp.Deploy.Guarded.{Stage, Guarded, both-Guarded, Anything, any-Guarded}

module _ {J : Type 0} (json : Json J) (host : Host) where
  load_cached_manifest-Guarded :
      (s : Stage) (m : GithubJsonManifest J) → Guarded Anything s (load_cached_manifest json host m)
  unfolding load_cached_manifest
  load_cached_manifest-Guarded s m =
      both-Guarded s (asks (file_exists m.destination) (λ r. from_result (flag_of r))) _
        (λ r. any-Guarded _ _)
        λ s there. elim (Bool-cases there) [
          | inl e ↦ rw e (
              both-Guarded s (file_bytes m.destination) _ (λ r. any-Guarded _ _)
                λ s payload.
                  both-Guarded s (from_result (json.loads payload)) _ (any-Guarded s _)
                    λ s value. tt)
          | inr e ↦ rw e tt
        ]
