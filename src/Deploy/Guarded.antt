-- ===== src/Deploy/Guarded.antt =====
-- What a coroutine must have done before it may erase the flash.
use openipc_tftp.Common.{
  ◌≡◌, refl, Bool, true, false, ◌&&◌, List, [], ◌∷◌, Result, ok, err, All, any_of, Ensures,
  if◌then◌else◌,
}
use openipc_tftp.Common.Text.{Text, Bytes, codes, text_eq, starts_with}
use openipc_tftp.Scripted.Setting.{
  Call, get_config, env_get, env_set, write_file, file_exists, read_file, acquire_download,
  get_download, Answer, Lines, one, many,
}
use openipc_tftp.Tasks.{
  Task, gives, fails, asks, execs, receives, out_of_fuel, ◌>>=◌, from_result, exec, env_find,
  looked_up,
}

-- The last upload of the client, and whether one was stored as a backup.
pub data Stage : Type 0 where
  unsaved saved : Stage
  uploaded : Bytes → Stage

-- A line as uboot_nor_erase prints it.
abbrev pub erases_line : Text → Bool
erases_line line = starts_with (codes "sf probe 0\nsf erase ") line

abbrev pub erases : Lines → Bool
erases (one line) = erases_line line
erases (many ls) = any_of erases_line ls

abbrev is_backup : Stage → Text → Bytes → Bool
is_backup (uploaded body) path stored = starts_with (codes "backup/") path && text_eq body stored
is_backup unsaved path stored = false
is_backup saved path stored = true

abbrev pub after : Stage → Call → Result Answer → Stage
after s (write_file path body) (ok answer) = if is_backup s path body then saved else s
after s call r = s

abbrev pub received : Stage → Result Bytes → Stage
received saved r = saved
received s (ok body) = uploaded body
received s (err e) = s

-- Whatever the client and the provider answer, a script that erases flash is sent only behind a
-- backup; and what the coroutine gives has the property.
abbrev pub Guarded : {A : Type 0} → (Stage → A → Type 0) → Stage → Task A → Type 0
Guarded P s (gives a) = P s a
Guarded P s (fails e) = Unit
Guarded P s (asks call k) = (r : Result Answer) → Guarded P (after s call r) (k r)
Guarded P s (execs script final keys k) =
    (erases script ≡ true → s ≡ saved) × ((r : Result (Unit {0})) → Guarded P s (k r))
Guarded P s (receives script size k) =
    (erases script ≡ true → s ≡ saved) × ((r : Result Bytes) → Guarded P (received s r) (k r))
Guarded P s out_of_fuel = Unit

pub Guarded-bind :
    {A B : Type 0} (Q : Stage → A → Type 0) (P : Stage → B → Type 0) (s : Stage) (t : Task A)
    (next : A → Task B)
    → Guarded Q s t
    → ((s' : Stage) (a : A) → Q s' a → Guarded P s' (next a))
    → Guarded P s (t >>= next)
unfolding ◌>>=◌
Guarded-bind Q P s (gives a) next h k = k s a h
Guarded-bind Q P s (fails e) next h k = tt
Guarded-bind Q P s (asks call f) next h k =
    λ r. Guarded-bind Q P (after s call r) (f r) next (h r) k
Guarded-bind Q P s (execs script final keys f) next (q, h) k =
    (q, λ r. Guarded-bind Q P s (f r) next (h r) k)
Guarded-bind Q P s (receives script size f) next (q, h) k =
    (q, λ r. Guarded-bind Q P (received s r) (f r) next (h r) k)
Guarded-bind Q P s out_of_fuel next h k = tt

-- A property of the value alone.
abbrev pub Gives : {A : Type 0} → (A → Type 0) → Stage → A → Type 0
Gives P s a = P a

abbrev pub Anything : {A : Type 0} → Stage → A → Type 0
Anything s a = Unit

after-saved : (call : Call) (r : Result Answer) → after saved call r ≡ saved
after-saved (write_file path body) (ok answer) = refl
after-saved (write_file path body) (err e) = refl
after-saved (get_config name default) r = refl
after-saved (env_get key) r = refl
after-saved (env_set key v) r = refl
after-saved (file_exists path) r = refl
after-saved (read_file path) r = refl
after-saved (acquire_download d) r = refl
after-saved (get_download key) r = refl

-- Behind a backup, everything may come.
pub saved-Guarded : {A : Type 0} (t : Task A) → Guarded Anything saved t
saved-Guarded (gives a) = tt
saved-Guarded (fails e) = tt
saved-Guarded (asks call k) = λ r. rw (after-saved call r) (saved-Guarded (k r))
saved-Guarded (execs script final keys k) = (λ e. refl, λ r. saved-Guarded (k r))
saved-Guarded (receives script size k) = (λ e. refl, λ r. saved-Guarded (k r))
saved-Guarded out_of_fuel = tt

pub from_result-Guarded :
    {A : Type 0} (P : A → Type 0) (s : Stage) (r : Result A)
    → Ensures P r
    → Guarded (Gives P) s (from_result r)
from_result-Guarded P s (ok a) h = h
from_result-Guarded P s (err e) h = tt

pub any-Guarded : {A : Type 0} (s : Stage) (r : Result A) → Guarded Anything s (from_result r)
any-Guarded s (ok a) = tt
any-Guarded s (err e) = tt

abbrev pub IsQuiet : Text → Type 0
IsQuiet line = erases_line line ≡ false

pub quiet : (ls : List Text) → All IsQuiet ls → erases (many ls) ≡ false
quiet [] h = refl
quiet (l ∷ ls) (e, h) = rw e (quiet ls h)

-- A script of quiet lines may be sent at any time.
pub exec-Guarded :
    (s : Stage) (ls : List Text) (final : Bool) (keys : List Text)
    → All IsQuiet ls
    → Guarded Anything s (exec ls final keys)
exec-Guarded s ls final keys h = ((λ e. absurd (cc (quiet ls h, e))), λ r. any-Guarded s r)

pub env_find-Guarded : (s : Stage) (key : Text) → Guarded Anything s (env_find key)
env_find-Guarded s key = λ r. any-Guarded s (looked_up r)

-- One coroutine behind another, of which nothing is known.
pub both-Guarded :
    {A B : Type 0} (s : Stage) (t : Task A) (next : A → Task B)
    → Guarded Anything s t
    → ((s' : Stage) (a : A) → Guarded Anything s' (next a))
    → Guarded Anything s (t >>= next)
both-Guarded s t next h k = Guarded-bind Anything Anything s t next h (λ s' a _. k s' a)
