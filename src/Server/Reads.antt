-- ===== src/Server/Reads.antt =====
-- What the server makes of a read request whose client id is refused.
use openipc_tftp.Common.{ℕ, ◌≡◌, refl, List, All, err, value_error}
use openipc_tftp.Common.Text.{Text, Lacks, lower}
use openipc_tftp.Common.Stateful.{◌>>=◌}
use openipc_tftp.Protocol.ClientId.{IsClientId}
use openipc_tftp.Protocol.Print.{print_path, IsSegment, parse-print_path_refused}
use openipc_tftp.Scripted.Setting.{Setting, Provider}
use openipc_tftp.Scripted.Dispatch.{fetch}
use openipc_tftp.Server.{opened, open_dynamic_download}

-- A read request of the name `id=<text>`, or `id=<text>/<segment>/…` with segments that are not empty
-- and have no slash and no percent sign, makes the function that the server hands to tftpy raise
-- ValueError and change nothing, whenever the text has no slash and no percent sign and is not, in
-- lower case, a client id: the error is not answered as a missing file.
pub refused_read :
    {H : Type 0} (setting : Setting H) (now : ℕ) (peer : Text × ℕ) (p : Provider H) (id : Text)
    (message : List Text)
    → Lacks b'/' id
    → Lacks b'%' id
    → (¬ IsClientId (lower id))
    → All IsSegment message
    → open_dynamic_download setting now (record { filename = print_path id message; peer = peer }) p
      ≡ (err value_error, p)
unfolding open_dynamic_download opened fetch ◌>>=◌
refused_read setting now peer p id message slash percent invalid hs =
    rw (parse-print_path_refused id message slash percent invalid hs) refl
