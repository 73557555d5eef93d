-- ===== src/Jobs/Invariant.antt =====
-- Every reachable download store is sound.
use openipc_tftp.Common.{
  ℕ, ◌+◌, ◌≡◌, refl, sym, ap, subst, ◌∙◌, Bool, true, false, [], ◌∷◌, Option, none, some, arith,
  if◌then◌else◌, Ensures, Ensures-value, Ensures-bind,
}
use openipc_tftp.Common.Text.{Text, text_eq, text_eq_iff}
use openipc_tftp.Common.Dict
use openipc_tftp.Common.Dict.{get-put, get-empty}
use openipc_tftp.Common.TextSet
use openipc_tftp.Common.TextSet.{
  IsDistinct, IsDistinct-empty, add-IsDistinct, discard-IsDistinct, count-append, count-discard,
}
use openipc_tftp.Jobs.{
  ArtifactEntry, DownloadArtifact, JobStore, Acquire, acquire, start_download, put_entry,
  acquire_entry, release, changed, change_entry, attach, detach, new_entry, validate_entry,
}
use openipc_tftp.Jobs.Thread.{
  Step, acquires, releases, reports, ends, Reach, here, later, progressed, update_progress,
}
use openipc_tftp.Jobs.Changes.{
  attach-KeepsEntry, detach-KeepsEntry, progressed-KeepsEntry, IsEntryOf, IsSound,
  change_entry-IsSound, end_download-IsSound,
}

module _ (digest : Text → Text) (now : ℕ) (s : JobStore) (a : Acquire) where
  acquired_first : ArtifactEntry
  acquired_first = attach now a.session_id (new_entry digest now s.temp_root a)

  first_store : JobStore
  first_store = start_download (put_entry s acquired_first) a.artifact_key

  first-IsSound : IsSound s → Dict.get s.artifacts a.artifact_key ≡ none → IsSound first_store
  unfolding first_store acquired_first attach new_entry
  first-IsSound h absent = record {
    entry = λ j.
        rw (get-put s.artifacts a.artifact_key acquired_first j)
          (branch j (text_eq a.artifact_key j) refl);
  }
    where
      counted :
          (j : Text)
          → TextSet.count j first_store.threads
            ≡ TextSet.count j s.threads + (if text_eq a.artifact_key j then 1 else 0)
      counted j =
          count-append j s.threads (a.artifact_key ∷ []) ∙ (unfold TextSet.count in omega arith)

      unknown : (j : Text) → text_eq a.artifact_key j ≡ true → TextSet.count j s.threads ≡ 0
      unknown j same =
          let e : Dict.get s.artifacts j ≡ none =
            ap (Dict.get s.artifacts) (sym ((text_eq_iff a.artifact_key j).0 same)) ∙ absent in
          subst (IsEntryOf s j) e (h.entry j)

      others :
          (j : Text) (o : Option ArtifactEntry)
          → text_eq a.artifact_key j ≡ false
          → IsEntryOf s j o
          → IsEntryOf first_store j o
      others j none other n = counted j ∙ rw (other, n) refl
      others j (some e) other (k, d, n) = (k, d, counted j ∙ rw (other, n) (omega arith))

      branch :
          (j : Text) (b : Bool)
          → text_eq a.artifact_key j ≡ b
          → IsEntryOf first_store j (if b then some acquired_first else Dict.get s.artifacts j)
      branch j true same = (
        (text_eq_iff a.artifact_key j).0 same,
        add-IsDistinct a.session_id [] IsDistinct-empty,
        counted j ∙ rw (same, unknown j same) refl,
      )
      branch j false other = others j _ other (h.entry j)

  pub joined :
      (found : ArtifactEntry)
      → Dict.get s.artifacts a.artifact_key ≡ some found
      → change_entry s a.artifact_key (attach now a.session_id) ≡ record s {
        artifacts = Dict.put s.artifacts a.artifact_key (attach now a.session_id found);
      }
  unfolding change_entry
  joined found e = rw (e, changed) refl

  acquire_entry-IsSound :
      IsSound s
      → (o : Option ArtifactEntry) → Dict.get s.artifacts a.artifact_key ≡ o
      → Ensures (λ r. IsSound r.1) (acquire_entry digest now s a o)
  unfolding acquire_entry
  acquire_entry-IsSound h none absent = unfold first_store acquired_first in first-IsSound h absent
  acquire_entry-IsSound h (some found) e =
      Ensures-bind (λ (r : DownloadArtifact × JobStore). IsSound r.1) (validate_entry found a) _
        λ _ _. subst IsSound (joined found e) (
          change_entry-IsSound s a.artifact_key (attach now a.session_id)
            (attach-KeepsEntry now a.session_id) (λ e. unfold attach in refl) h)

  acquire-IsSound : IsSound s → Ensures (λ r. IsSound r.1) (acquire digest now s a)
  unfolding acquire
  acquire-IsSound h = acquire_entry-IsSound h (Dict.get s.artifacts a.artifact_key) refl

-- Every step keeps the store sound.
pub Step-IsSound : {digest : Text → Text} {s t : JobStore} → Step digest s t → IsSound s → IsSound t
unfolding release update_progress
Step-IsSound {digest} {s} (acquires now a e) h =
    Ensures-value _ (acquire digest now s a) (acquire-IsSound digest now s a h) e
Step-IsSound {s} (releases now key session_id) h =
    change_entry-IsSound s key (detach now session_id) (detach-KeepsEntry now session_id)
      (λ e. unfold detach in refl) h
Step-IsSound {s} (reports now key count total running) h =
    change_entry-IsSound s key (progressed now count total) (progressed-KeepsEntry now count total)
      (λ e. unfold progressed in refl) h
Step-IsSound {s} (ends now key ending running) h = end_download-IsSound now s key ending h

-- In every store that calls and threads reach from a sound one, in whatever order, each entry
-- stands under its own key, no session is attached to it twice, and one thread runs for it while
-- it is pending, and none when it is done or failed or there is no entry.
pub Reach-IsSound :
    {digest : Text → Text} {s t : JobStore} → Reach digest s t → IsSound s → IsSound t
Reach-IsSound here h = h
Reach-IsSound (later r st) h = Step-IsSound st (Reach-IsSound r h)

pub IsSound-empty :
    (temp_root : _) → IsSound (record { temp_root = temp_root; artifacts = []; threads = [] })
unfolding TextSet.count
IsSound-empty temp_root = record { entry = λ key. rw (get-empty {V = ArtifactEntry} key) refl }
