-- ===== src/Deploy/Install.antt =====
-- scripts/openipc.py: the coroutines of an installation. What the source takes from its surroundings
-- is the record Host: the attributes of the session's handle, the first number that the counter of
-- temporary names draws in each step, the date as printed, the random bytes, urllib's quote and whether
-- urlparse takes a text, the decompressors, and how often a download is polled at most.
use openipc_tftp.Common.{
  ℕ, ◌+◌, ◌/◌, Bool, true, false, not, ◌&&◌, ◌||◌, List, [], ◌∷◌, ◌++◌, Option, none, some, Result,
  ok, err, name_error, type_error, value_error, unicode_error, ltb, ◌==◌, if◌then◌else◌, is_empty,
  length,
}
use openipc_tftp.Common.Text.{Text, Bytes, codes, text_eq, split_on}
use openipc_tftp.Common.Digits.{str}
use openipc_tftp.Common.Dict
use openipc_tftp.Common.Dict.{Dict}
use openipc_tftp.Env.Search.{Decompress}
use openipc_tftp.Env.Flash.{ubootenv_extract, ubootenv_patch}
use openipc_tftp.Scripted.Setting.{write_file, Answer, many, number, text}
use openipc_tftp.Scripted.Texts.{subscript}
use openipc_tftp.Snippets.{uboot_fetch_static, uboot_nor_erase, uboot_nor_write}
use openipc_tftp.Tasks.{
  Task, gives, fails, asks, ◌>>=◌, ◌>>◌, from_result, exec, env_find, fetch_env, default_export,
}
use openipc_tftp.Term.{uboot_msg, uboot_err}
use openipc_tftp.Ops.{uboot_nor_download, uboot_nor_probe, uboot_download_url, uboot_exec_delay}
use openipc_tftp.Deploy.{check_install_args, openipc_patch_env}

pub record Host : Type 0 where
  pub rambase : Text
  pub cmdtftp : Text
  pub server_ip : Text
  pub root : Text
  pub count : ℕ
  pub stamp : Text
  pub random : List ℕ
  pub quote : Text → Text
  pub parses : Text → Bool
  pub decompress : Decompress
  pub polls : ℕ

-- `uboot_msg(message, bold=bold, nl=nl)`
abbrev pub message : Text → Bool → Bool → Task Text
message t bold nl = from_result (uboot_msg t (codes "green") bold nl)

abbrev pub complain : Text → Task Text
complain t = from_result (uboot_err t (codes "red") true)

abbrev pub stored : Result Answer → Result (Unit {0})
stored (err e) = err e
stored (ok other) = ok tt

abbrev pub store : Text → Bytes → Task (Unit {0})
store destination body = asks (write_file destination body) (λ r. from_result (stored r))

unfoldable pub last_part : List Text → Text
last_part [] = []
last_part (w ∷ []) = w
last_part (w ∷ v ∷ ws) = last_part (v ∷ ws)

-- `Path(filename).name`, for a name that ends in no slash.
abbrev base_name : Text → Text
base_name filename = last_part (split_on b'/' filename)

module _ (host : Host) where
  unfoldable pub openipc_download_binary : Text → Text → ℕ → Text → Task Bytes
  unfolding ◌>>=◌ uboot_download_url
  openipc_download_binary vendor soc size_mb fw =
      let quote = host.quote in
      let page =
        codes "https://openipc.org/cameras/vendors/"
        ++ (quote vendor ++ (codes "/socs/" ++ quote soc)) in
      let url =
        page
        ++ (codes "/download_full_image?flash_size="
            ++ (quote (str size_mb) ++ (codes "&flash_type=nor&fw_release=" ++ quote fw))) in
      uboot_download_url host.polls host.parses
        (record {
          artifact_key = url;
          url = url;
          destination =
              codes "install/openipc-"
              ++ (soc ++ (codes "-" ++ (fw ++ (codes "-" ++ (str size_mb ++ codes "mb.bin")))));
          page_url = some page;
          headers = [];
        })
        true

  unfoldable pub openipc_nor_backup : ℕ → ℕ → Text → Bool → Task (Unit {0})
  unfolding ◌>>=◌ uboot_nor_download
  openipc_nor_backup count sz filename final = do
    let name =
        if is_empty filename then codes "snapshot-" ++ (host.stamp ++ codes ".bin") else filename
    copying ← message (codes "Copying NOR to RAM... ") true false
    copied ← message (codes "OK") false true
    downloading ← message (codes "Downloading backup via TFTP...") true true
    binary ← uboot_nor_download host.rambase count sz (copying ∷ []) (copied ∷ downloading ∷ [])
    store (codes "backup/" ++ name) binary
    saved ← message (codes "  Saved backup as backup/" ++ name) false true
    exec (saved ∷ []) final []

  unfoldable pub openipc_nor_restore : ℕ → Text → ℕ → Task (Unit {0})
  unfolding ◌>>=◌ last_part
  openipc_nor_restore count filename sz = do
    uploading ← message (codes "Uploading " ++ (base_name filename ++ codes "... ")) true false
    let fetch =
        uboot_fetch_static host.rambase host.server_ip count filename (some (number 1024)) none
    fine ← message (codes "OK") false true
    erasing ← message (codes "Erasing flash... ") true false
    writing ← message (codes "Writing flash... ") true false
    let written = uboot_nor_write host.rambase (count + 1) (number 0) (number 1024) (number sz) none
    exec
        (uploading
          ∷ fetch
          ∷ fine
          ∷ erasing
          ∷ uboot_nor_erase (number 0) (number sz)
          ∷ fine
          ∷ writing
          ∷ written
          ∷ fine
          ∷ [])
        false []

  -- `env.update({k: tftp_env[k] for k in keys if k in tftp_env})`
  unfoldable pub overridden : Dict Text → List Text → Task (Dict Text)
  unfolding ◌>>=◌
  overridden env [] = gives env
  overridden env (key ∷ keys) = do
    found ← env_find key
    overridden (elim found [ none ↦ env | some v ↦ Dict.put env key v ]) keys

  abbrev pub set_default : Dict Text → Text → Text → Dict Text
  set_default env key v = if Dict.has_key env key then env else Dict.put env key v

  -- The complaints about the flash. The last of the source is added to a name that is not bound.
  unfoldable pub nor_complaints : ℕ → Text → Task (List Text)
  unfolding ◌>>=◌
  nor_complaints nor_size fw =
      let missing = complain (codes "NOR flash not detected! Aborting...") in
      let unsupported = complain (codes "Only 8M or 16M NOR flash supported.") in
      let mb = nor_size / 0x100000 in
      if nor_size == 0
      then (do line ← missing; gives (line ∷ []))
      else if not (mb == 8 || mb == 16)
      then (do line ← unsupported; gives (line ∷ []))
      else if ltb mb 16 && text_eq fw (codes "ultimate")
      then fails name_error
      else gives []

  -- The messages of the probe.
  abbrev pub probe : Option Text → Task ℕ
  probe max_size = do
    probing ← message (codes "Probing NOR flash... ") true false
    found ← message (codes "${size}") false true
    uboot_nor_probe host.rambase (elim max_size [ none ↦ none | some t ↦ some (text t) ])
        (probing ∷ []) (found ∷ []) false (codes "status") (codes "size")

  -- A ValueError of the extraction ends in a call of uboot_err with an argument that it does not take.
  abbrev or_type_error : Result (Dict Text) → Result (Dict Text)
  or_type_error (err value_error) = err type_error
  or_type_error (err unicode_error) = err type_error
  or_type_error (err e) = err e
  or_type_error (ok env) = ok env

  -- The script that asks for a new address.
  new_address : Text → Task (Unit {0})
  unfolding ◌>>=◌
  new_address ethaddr = do
    getting ← message (codes "Getting new IP with ethaddr=" ++ (ethaddr ++ codes "...")) false true
    success ←
        message (codes "Success: ip=${ipaddr} mask=${netmask} gateway=${gatewayip}") false true
    exec
        (getting
          ∷ (codes "setenv ethaddr " ++ ethaddr)
          ∷ codes "setenv autoload no"
          ∷ codes "dhcp"
          ∷ success
          ∷ [])
        false (codes "ipaddr" ∷ codes "netmask" ∷ codes "gatewayip" ∷ [])

  unfoldable pub renew_address : Dict Text → Dict Text → Task (Unit {0})
  unfolding ◌>>=◌ new_address
  renew_address cenv new_env = do
    ip ← from_result (subscript new_env (codes "ip"))
    if text_eq ip (codes "static") then gives tt else (do
      ethaddr ← from_result (subscript new_env (codes "ethaddr"))
      old ← from_result (subscript cenv (codes "ethaddr"))
      if text_eq ethaddr old then gives tt else new_address ethaddr)

  finish : Text → Text → Text → Task (Unit {0})
  unfolding ◌>>=◌ uboot_exec_delay
  finish ident backup_filename ipaddr = do
    blank ← message [] false true
    done ← message (codes "Install finished for " ++ ident) true true
    rule ← message (codes "------------------------------") false true
    backup ←
        message (codes "Flash backup: " ++ (host.root ++ (codes "/" ++ backup_filename))) false true
    web ← message (codes "Web UI: http://" ++ (ipaddr ++ codes "/")) false true
    ssh ← message (codes "SSH: ssh root@" ++ (ipaddr ++ codes " (password: 12345)")) false true
    support ←
        message (codes "Support OpenIPC: https://opencollective.com/openipc/contribute") false true
    exec (blank ∷ done ∷ rule ∷ backup ∷ web ∷ ssh ∷ support ∷ blank ∷ []) false []
    rebooting ← from_result (uboot_msg (codes "Rebooting...") (codes "white") false true)
    uboot_exec_delay (codes "Rebooting in 10 seconds") 10 (rebooting ∷ codes "reset" ∷ []) true

  -- From the image that was downloaded to the end of the installation.
  flash_image : Text → Text → Text → Dict Text → Bytes → Task (Unit {0})
  unfolding ◌>>=◌ openipc_nor_restore overridden renew_address finish
  flash_image ident name backup_filename cenv binary = do
    extracting ← message (codes "Extracting uboot env from image... ") true false
    exec (extracting ∷ []) false []
    new_env ← from_result (or_type_error (ubootenv_extract host.decompress binary 0 none none none))
    fine ← message (codes "OK") false true
    title ← message (codes "Patched env variables:") true true
    patch ← from_result (openipc_patch_env host.rambase ident host.random cenv new_env)
    exec (fine ∷ title ∷ patch.msgs) false []
    patched ←
        from_result (ubootenv_patch host.decompress binary patch.new_env 0 none none none none 0xff)
    let filename = codes "patched/" ++ (ident ++ (codes "-" ++ name))
    store filename patched
    openipc_nor_restore (host.count + 2) filename (length patched)
    renew_address cenv patch.new_env
    after ← overridden cenv (codes "ipaddr" ∷ codes "netmask" ∷ codes "gatewayip" ∷ [])
    ipaddr ← from_result (subscript after (codes "ipaddr"))
    finish ident backup_filename ipaddr

  -- From the checks that passed to the image.
  unfoldable pub back_up_and_flash : Text → Dict Text → ℕ → Task (Unit {0})
  unfolding ◌>>=◌ openipc_nor_backup openipc_download_binary flash_image
  back_up_and_flash ident cenv nor_size = do
    fw ← from_result (subscript cenv (codes "fw"))
    vendor ← from_result (subscript cenv (codes "vendor"))
    soc ← from_result (subscript cenv (codes "soc"))
    let mb = str (nor_size / 0x100000)
    let name =
        codes "openipc-" ++ (soc ++ (codes "-" ++ (fw ++ (codes "-" ++ (mb ++ codes "mb.bin")))))
    let backup_filename =
        codes "install-backup-"
        ++ (ident
            ++ (codes "-"
                ++ (soc ++ (codes "-" ++ (mb ++ (codes "mb-" ++ (host.stamp ++ codes ".bin")))))))
    backing ← message (codes "Backing up NOR flash.") true true
    exec (backing ∷ []) false []
    openipc_nor_backup host.count nor_size backup_filename false
    binary ← openipc_download_binary vendor soc (nor_size / 0x100000) fw
    if is_empty binary then gives tt else flash_image ident name backup_filename cenv binary

  -- The default of `nor_size` is left out: nothing reads it.
  unfoldable pub openipc_install : Text → Task (Unit {0})
  unfolding ◌>>=◌ fetch_env overridden nor_complaints check_install_args back_up_and_flash
  openipc_install ident = do
    fetching ← message (codes "Fetching current uboot environment... ") true false
    fetched ← fetch_env (default_export host.rambase) (many (fetching ∷ [])) (codes "filesize")
    fine ← message (codes "OK") false true
    exec (fine ∷ []) false []
    merged ← overridden fetched (codes "nor_size" ∷ codes "fw" ∷ codes "vendor" ∷ codes "soc" ∷ [])
    let cenv =
        set_default (set_default merged (codes "fw") (codes "lite")) (codes "ip") (codes "dhcp")
    max_size ← env_find (codes "nor_size")
    nor_size ← probe max_size
    args ← from_result (check_install_args host.rambase host.cmdtftp cenv)
    fw ← from_result (subscript cenv (codes "fw"))
    flash ← nor_complaints nor_size fw
    let msgs = args ++ flash
    if is_empty msgs then back_up_and_flash ident cenv nor_size else exec msgs true []
