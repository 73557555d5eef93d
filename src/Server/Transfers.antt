-- ===== src/Server/Transfers.antt =====
-- What is logged of a transfer.
use openipc_tftp.Common.{
  ℕ, zero, suc, ◌+◌, ◌≡◌, refl, ap, ◌∙◌, true, List, [], ◌∷◌, Option, none, some, arith, foldl,
  flatten, length, length-append,
}
use openipc_tftp.Common.Text.{Bytes}
use openipc_tftp.Server.{TransferLog, new_log, transfer, total_of, close, log_once}

counted :
    (chunks : List Bytes) (file : TransferLog)
    → foldl transfer file chunks ≡ record file { count = file.count + length (flatten chunks) }
unfolding transfer
counted [] file = ap (λ n. record file { count = n }) (omega arith)
counted (c ∷ chunks) file =
    counted chunks (record file { count = file.count + length c })
    ∙ ap (λ n. record file { count = n }) (omega (arith, length-append c (flatten chunks)))

abbrev pub close_again : ℕ → TransferLog → TransferLog
close_again zero file = file
close_again (suc n) file = close (close_again n file)

closed_again : (n : ℕ) (file : TransferLog) → file.logged ≡ true → close_again n file ≡ file
unfolding close log_once
closed_again zero file h = refl
closed_again (suc n) file h = ap close (closed_again n file h) ∙ rw h refl

-- The log of a file that is transferred in these chunks, closed, and closed again so often.
abbrev pub log_of : Option ℕ → List Bytes → ℕ → List ℕ
log_of expected_size chunks again =
    (close_again again (close (foldl transfer (new_log expected_size) chunks))).log

log_of-total_of :
    (expected_size : Option ℕ) (chunks : List Bytes) (again : ℕ)
    → log_of expected_size chunks again ≡ total_of expected_size (length (flatten chunks)) ∷ []
unfolding close log_once
log_of-total_of expected_size chunks again =
    ap (λ file. (close_again again (close file)).log) (counted chunks (new_log expected_size))
    ∙ ap (λ (file : TransferLog). file.log)
        (closed_again again
          (close (record (new_log expected_size) { count = 0 + length (flatten chunks) })) refl)
    ∙ ap (λ n. total_of expected_size n ∷ []) (zero_add (length (flatten chunks)))
  where
    zero_add : (n : ℕ) → 0 + n ≡ n
    zero_add n = omega arith

-- However a file is transferred in chunks, and however often it is closed again, one total is
-- logged: the size, if it was known before, whatever was transferred, and the number of all bytes
-- of the chunks if it was not.
pub logged_once :
    (size : ℕ) (chunks : List Bytes) (again : ℕ)
    → (log_of (some size) chunks again ≡ size ∷ [])
      × (log_of none chunks again ≡ length (flatten chunks) ∷ [])
logged_once size chunks again =
    (log_of-total_of (some size) chunks again, log_of-total_of none chunks again)
