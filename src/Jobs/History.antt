-- ===== src/Jobs/History.antt =====
-- What no call and no thread undoes: an artifact stays, as it was first asked for, and its download
-- ends once.
use openipc_tftp.Common.{
  ℕ, ◌<◌, ◌≡◌, ◌≢◌, refl, sym, ap, subst, ◌∙◌, true, Option, none, some, arith, Bool-cases, inl,
  inr, Ensures, Ensures-value, Ensures-bind,
}
use openipc_tftp.Common.Text.{Text, text_eq, text_eq_iff}
use openipc_tftp.Common.Dict
use openipc_tftp.Common.Dict.{get-put}
use openipc_tftp.Common.TextSet
use openipc_tftp.Common.TextSet.{TextSet}
use openipc_tftp.Jobs.{
  ArtifactState, pending, done, failed, ArtifactEntry, DownloadArtifact, JobStore, Acquire, acquire,
  acquire_entry, release, change_entry, attach, detach, validate_entry,
}
use openipc_tftp.Jobs.Thread.{
  Step, acquires, releases, reports, ends, Reach, here, later, progressed, finished, broken,
  update_progress, end_thread, end_download, Ending, completes, raises,
}
use openipc_tftp.Jobs.Changes.{IsSound, IsEntryOf, threads_for, get-change_entry}
use openipc_tftp.Jobs.Invariant.{joined, Reach-IsSound}

-- What an artifact was asked for, and a download that has ended.
pub record Continues (e e' : ArtifactEntry) : Type 0 where
  pub url : e'.url ≡ e.url
  pub relative_path : e'.relative_path ≡ e.relative_path
  pub final_path : e'.final_path ≡ e.final_path
  pub temp_path : e'.temp_path ≡ e.temp_path
  pub page_url : e'.page_url ≡ e.page_url
  pub headers : e'.headers ≡ e.headers
  pub created_at : e'.created_at ≡ e.created_at
  pub settled : e.state ≢ pending → (e'.state ≡ e.state) × (e'.error ≡ e.error)

-- A change of the other fields.
updated-Continues :
    (e : ArtifactEntry) {state : ArtifactState} {n : ℕ} {total : Option ℕ} {error : Option Text}
    {updated : ℕ} {attached : TextSet}
    → (e.state ≢ pending → (state ≡ e.state) × (error ≡ e.error))
    → Continues e (record e {
      state = state;
      bytes_done = n;
      bytes_total = total;
      error = error;
      updated_at = updated;
      attached_sessions = attached;
    })
updated-Continues e settled = record {
  url = refl;
  relative_path = refl;
  final_path = refl;
  temp_path = refl;
  page_url = refl;
  headers = refl;
  created_at = refl;
  settled = settled;
}

Continues-refl : (e : ArtifactEntry) → Continues e e
Continues-refl e = updated-Continues e (λ n. (refl, refl))

Continues-trans : (e f g : ArtifactEntry) → Continues e f → Continues f g → Continues e g
Continues-trans e f g p q = record {
  url = q.url ∙ p.url;
  relative_path = q.relative_path ∙ p.relative_path;
  final_path = q.final_path ∙ p.final_path;
  temp_path = q.temp_path ∙ p.temp_path;
  page_url = q.page_url ∙ p.page_url;
  headers = q.headers ∙ p.headers;
  created_at = q.created_at ∙ p.created_at;
  settled = λ n.
      let (s, r) = p.settled n in let (s', r') = q.settled (λ x. n (sym s ∙ x)) in (s' ∙ s, r' ∙ r);
}

abbrev pub Later : JobStore → Text → ArtifactEntry → Type 0
Later t key e = (e' : ArtifactEntry) × (Dict.get t.artifacts key ≡ some e') × Continues e e'

module _ (s : JobStore) (key : Text) (e : ArtifactEntry)
    (found : Dict.get s.artifacts key ≡ some e) where
  change-Later :
      (k : Text) (f : ArtifactEntry → ArtifactEntry)
      → (text_eq k key ≡ true → Continues e (f e))
      → Later (change_entry s k f) key e
  change-Later k f c = elim (Bool-cases (text_eq k key)) [
    | inl same ↦ (f e, get-change_entry s k f key ∙ rw (same, found) refl, c same)
    | inr other ↦ (e, get-change_entry s k f key ∙ rw (other, found) refl, Continues-refl e)
  ]

  pending_of_thread : (st : ArtifactState) → 0 < threads_for st → st ≡ pending
  pending_of_thread pending h = refl
  pending_of_thread done h = absurd (omega arith)
  pending_of_thread failed h = absurd (omega arith)

  still_pending :
      (k : Text)
      → IsSound s
      → 0 < TextSet.count k s.threads
      → text_eq k key ≡ true
      → e.state ≡ pending
  still_pending k h running same =
      let (own, distinct, n) = subst (IsEntryOf s key) found (h.entry key) in
      let e' : TextSet.count k s.threads ≡ TextSet.count key s.threads =
        ap (λ t. TextSet.count t s.threads) ((text_eq_iff k key).0 same) in
      pending_of_thread e.state (omega arith)

  end-Later :
      (now : ℕ) (k : Text) (ending : Ending)
      → IsSound s
      → 0 < TextSet.count k s.threads
      → Later (end_download now s k ending) key e
  unfolding end_download end_thread
  end-Later now k completes h running = change-Later k (finished now) λ same.
      unfold finished in updated-Continues e (λ n. absurd (n (still_pending k h running same)))
  end-Later now k (raises message) h running = change-Later k (broken now message) λ same.
      unfold broken in updated-Continues e (λ n. absurd (n (still_pending k h running same)))

  acquire_entry-Later :
      (digest : Text → Text) (now : ℕ) (a : Acquire) (o : Option ArtifactEntry)
      → Dict.get s.artifacts a.artifact_key ≡ o
      → Ensures (λ r. Later r.1 key e) (acquire_entry digest now s a o)
  unfolding acquire_entry
  acquire_entry-Later digest now a none absent = (
    e,
    get-put s.artifacts a.artifact_key _ key ∙ ground (arith, text_eq_iff a.artifact_key key),
    Continues-refl e,
  )
  acquire_entry-Later digest now a (some f) there =
      Ensures-bind (λ (r : DownloadArtifact × JobStore). Later r.1 key e) (validate_entry f a) _
        λ _ _.
          subst (λ t. Later t key e) (joined digest now s a f there)
            (change-Later a.artifact_key (attach now a.session_id)
              (λ _. unfold attach in updated-Continues e (λ n. (refl, refl))))

-- Every step keeps what each artifact was asked for, and a download that is done or failed stays so.
pub Step-Later :
    {digest : Text → Text} {s t : JobStore} (key : Text) (e : ArtifactEntry)
    → Step digest s t
    → IsSound s
    → Dict.get s.artifacts key ≡ some e
    → Later t key e
unfolding release update_progress acquire
Step-Later {digest} {s} key e (acquires now a q) h found =
    Ensures-value (λ (r : DownloadArtifact × JobStore). Later r.1 key e) (acquire digest now s a)
      (acquire_entry-Later s key e found digest now a (Dict.get s.artifacts a.artifact_key) refl) q
Step-Later {s} key e (releases now k session_id) h found =
    change-Later s key e found k (detach now session_id)
      (λ _. unfold detach in updated-Continues e (λ n. (refl, refl)))
Step-Later {s} key e (reports now k count total running) h found =
    change-Later s key e found k (progressed now count total)
      (λ _. unfold progressed in updated-Continues e (λ n. (refl, refl)))
Step-Later {s} key e (ends now k ending running) h found =
    end-Later s key e found now k ending h running

-- Over any run of calls and threads from a sound store, an artifact stays in the store with the
-- URL, paths, headers and time that it was first asked for, and once its download is done or
-- failed its state and error do not change.
pub Reach-Later :
    {digest : Text → Text} {s t : JobStore} (key : Text) (e : ArtifactEntry)
    → Reach digest s t
    → IsSound s
    → Dict.get s.artifacts key ≡ some e
    → Later t key e
Reach-Later key e here h found = (e, found, Continues-refl e)
Reach-Later key e (later r st) h found =
    let (m, found_m, c) = Reach-Later key e r h found in
    let (n, found_n, d) = Step-Later key m st (Reach-IsSound r h) found_m in
    (n, found_n, Continues-trans e m n c d)
