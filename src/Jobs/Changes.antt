-- ===== src/Jobs/Changes.antt =====
-- What it means that a download store is sound, and the changes of one entry that keep it so.
use openipc_tftp.Common.{
  ℕ, ◌≡◌, refl, sym, ◌∙◌, Bool, true, false, Option, none, some, arith, if◌then◌else◌,
}
use openipc_tftp.Common.Text.{Text, text_eq, text_eq_iff}
use openipc_tftp.Common.Dict
use mathlib.Core.Option
use openipc_tftp.Common.Dict.{get-put, get-empty}
use openipc_tftp.Common.TextSet
use openipc_tftp.Common.TextSet.{
  IsDistinct, IsDistinct-empty, add-IsDistinct, discard-IsDistinct, count-append, count-discard,
}
use openipc_tftp.Jobs.{
  ArtifactState, pending, done, failed, ArtifactEntry, JobStore, changed, change_entry, attach,
  detach,
}
use openipc_tftp.Jobs.Thread.{
  progressed, finished, broken, end_thread, end_download, Ending, completes, raises,
}

abbrev pub threads_for : ArtifactState → ℕ
threads_for pending = 1
threads_for done = 0
threads_for failed = 0

abbrev pub IsEntryOf : JobStore → Text → Option ArtifactEntry → Type 0
IsEntryOf s key none = TextSet.count key s.threads ≡ 0
IsEntryOf s key (some e) =
    (e.artifact_key ≡ key)
    × IsDistinct e.attached_sessions
    × (TextSet.count key s.threads ≡ threads_for e.state)

-- Under each key stands an entry of that key, which no session holds twice; one thread runs for it
-- while it is pending, and none before and after.
pub record IsSound (s : JobStore) : Type 0 where
  pub entry : (key : Text) → IsEntryOf s key (Dict.get s.artifacts key)

module _ (s : JobStore) (key : Text) (f : ArtifactEntry → ArtifactEntry) where
  get-changed :
      (j : Text) (o : Option ArtifactEntry)
      → Dict.get s.artifacts key ≡ o
      → Dict.get (changed s key f o).artifacts j
        ≡ (if text_eq key j then Option.map f (Dict.get s.artifacts j) else Dict.get s.artifacts j)
  unfolding changed
  get-changed j none e = ground (arith, text_eq_iff key j)
  get-changed j (some e) found =
      rw (get-put s.artifacts key (f e) j) (ground (arith, text_eq_iff key j))

  -- What a change of one entry does to the entries.
  pub get-change_entry :
      (j : Text)
      → Dict.get (change_entry s key f).artifacts j
        ≡ (if text_eq key j then Option.map f (Dict.get s.artifacts j) else Dict.get s.artifacts j)
  unfolding change_entry
  get-change_entry j = get-changed j (Dict.get s.artifacts key) refl

  threads-changed : (o : Option ArtifactEntry) → (changed s key f o).threads ≡ s.threads
  unfolding changed
  threads-changed none = refl
  threads-changed (some e) = refl

  pub threads-change_entry : (change_entry s key f).threads ≡ s.threads
  unfolding change_entry
  threads-change_entry = threads-changed (Dict.get s.artifacts key)

-- A change that keeps the key, the attached sessions apart and the state.
pub record KeepsEntry (f : ArtifactEntry → ArtifactEntry) : Type 0 where
  pub key : (e : ArtifactEntry) → (f e).artifact_key ≡ e.artifact_key
  pub distinct :
      (e : ArtifactEntry) → IsDistinct e.attached_sessions → IsDistinct (f e).attached_sessions

module _ (s : JobStore) (key : Text) (f : ArtifactEntry → ArtifactEntry)
    (keeps : KeepsEntry f) where
  mapped :
      (o : Option ArtifactEntry) (j : Text)
      → ((e : ArtifactEntry) → (f e).state ≡ e.state)
      → IsEntryOf s j o
      → IsEntryOf s j (Option.map f o)
  mapped none j same h = h
  mapped (some e) j same (k, d, n) = (keeps.key e ∙ k, keeps.distinct e d, rw (same e) n)

  pub change_entry-IsSound :
      ((e : ArtifactEntry) → (f e).state ≡ e.state) → IsSound s → IsSound (change_entry s key f)
  change_entry-IsSound same h = record {
    entry = λ j. rw (get-change_entry s key f j) (branch (text_eq key j) j);
  }
    where
      same_threads :
          (j : Text) (o : Option ArtifactEntry)
          → IsEntryOf s j o
          → IsEntryOf (change_entry s key f) j o
      same_threads j none n = rw (threads-change_entry s key f) n
      same_threads j (some e) (k, d, n) = (k, d, rw (threads-change_entry s key f) n)

      branch :
          (b : Bool) (j : Text)
          → IsEntryOf
              (change_entry s key f)
              j
              (if b then Option.map f (Dict.get s.artifacts j) else Dict.get s.artifacts j)
      branch true j = same_threads j _ (mapped (Dict.get s.artifacts j) j same (h.entry j))
      branch false j = same_threads j _ (h.entry j)

  -- The last step of a thread: the entry leaves `pending`, and the thread is gone.
  pub ended-IsSound :
      ((e : ArtifactEntry) → threads_for (f e).state ≡ 0)
      → IsSound s
      → IsSound (end_thread (change_entry s key f) key)
  unfolding end_thread
  ended-IsSound stops h = record {
    entry = λ j. rw (get-change_entry s key f j) (branch j (text_eq key j) refl);
  }
    where
      counted :
          (j : Text)
          → TextSet.count j (end_thread (change_entry s key f) key).threads
            ≡ (if text_eq key j then 0 else TextSet.count j s.threads)
      counted j =
          rw (count-discard j key (change_entry s key f).threads)
            (rw (threads-change_entry s key f) refl)

      ended :
          (j : Text) (o : Option ArtifactEntry)
          → text_eq key j ≡ true
          → IsEntryOf s j o
          → IsEntryOf (end_thread (change_entry s key f) key) j (Option.map f o)
      ended j none same n = counted j ∙ rw same refl
      ended j (some e) same (k, d, n) =
          (keeps.key e ∙ k, keeps.distinct e d, counted j ∙ rw same (sym (stops e)))

      others :
          (j : Text) (o : Option ArtifactEntry)
          → text_eq key j ≡ false
          → IsEntryOf s j o
          → IsEntryOf (end_thread (change_entry s key f) key) j o
      others j none other n = counted j ∙ rw other n
      others j (some e) other (k, d, n) = (k, d, counted j ∙ rw other n)

      branch :
          (j : Text) (b : Bool)
          → text_eq key j ≡ b
          → IsEntryOf
              (end_thread (change_entry s key f) key)
              j
              (if b then Option.map f (Dict.get s.artifacts j) else Dict.get s.artifacts j)
      branch j true same = ended j _ same (h.entry j)
      branch j false other = others j _ other (h.entry j)

pub detach-KeepsEntry : (now : ℕ) (session_id : Text) → KeepsEntry (detach now session_id)
unfolding detach
detach-KeepsEntry now session_id = record {
  key = λ e. refl;
  distinct = λ e d. discard-IsDistinct session_id e.attached_sessions d;
}

pub attach-KeepsEntry : (now : ℕ) (session_id : Text) → KeepsEntry (attach now session_id)
unfolding attach
attach-KeepsEntry now session_id = record {
  key = λ e. refl;
  distinct = λ e d. add-IsDistinct session_id e.attached_sessions d;
}

pub progressed-KeepsEntry :
    (now count : ℕ) (total : Option ℕ) → KeepsEntry (progressed now count total)
unfolding progressed
progressed-KeepsEntry now count total = record { key = λ e. refl; distinct = λ e d. d }

finished-KeepsEntry : (now : ℕ) → KeepsEntry (finished now)
unfolding finished
finished-KeepsEntry now = record { key = λ e. refl; distinct = λ e d. d }

broken-KeepsEntry : (now : ℕ) (message : Text) → KeepsEntry (broken now message)
unfolding broken
broken-KeepsEntry now message = record { key = λ e. refl; distinct = λ e d. d }

pub end_download-IsSound :
    (now : ℕ) (s : JobStore) (key : Text) (ending : Ending)
    → IsSound s
    → IsSound (end_download now s key ending)
unfolding end_download
end_download-IsSound now s key completes h =
    ended-IsSound s key (finished now) (finished-KeepsEntry now) (λ e. unfold finished in refl) h
end_download-IsSound now s key (raises message) h =
    ended-IsSound s key (broken now message) (broken-KeepsEntry now message)
      (λ e. unfold broken in refl) h
