-- ===== src/Env/Search/Queue.antt =====
-- The queue of candidates: _iter_uboot_candidates of src/uboot_tftp/ubootenv.py.
use openipc_tftp.Common.{
  ℕ, zero, suc, ◌+◌, ◌≤◌, ◌≡◌, refl, ap, ◌∙◌, true, ◌||◌, List, [], ◌∷◌, ◌++◌, Option, some, arith,
  inl, inr, Bool-cases, All, All-append, IsIn, All-IsIn, any_of, map, length, ==_refl,
}
use openipc_tftp.Common.Text.{Text, Bytes, codes}
use openipc_tftp.Env.Search.{
  Decompress, Member, scan_compressed_members, Queued, queue_member, nested, signature, same,
  candidates_from, iter_uboot_candidates, enough,
}

module _ (decompress : Decompress) where
  -- The rounds that a queue takes at most.
  rounds : List Queued → ℕ
  rounds [] = 0
  rounds (q ∷ queue) = suc (length (nested decompress q)) + rounds queue

  rounds-append : (qs rs : List Queued) → rounds (qs ++ rs) ≡ rounds qs + rounds rs
  unfolding rounds
  rounds-append [] rs = omega arith
  rounds-append (q ∷ qs) rs = omega (arith, rounds-append qs rs)

  -- What is queued behind a candidate has nothing behind it.
  rounds-members : (depth : ℕ) (ms : List Member) → rounds (map (queue_member depth) ms) ≡ length ms
  unfolding rounds nested
  rounds-members depth [] = refl
  rounds-members depth (m ∷ ms) = ground (arith, rounds-members depth ms)

  length-members : (depth : ℕ) (ms : List Member) → length (map (queue_member depth) ms) ≡ length ms
  length-members depth [] = refl
  length-members depth (m ∷ ms) = ap suc (length-members depth ms)

  rounds-nested : (q : Queued) → rounds (nested decompress q) ≡ length (nested decompress q)
  unfolding nested rounds
  rounds-nested q = ground (
    arith,
    rounds-members q.depth (scan_compressed_members decompress q.candidate),
    length-members q.depth (scan_compressed_members decompress q.candidate),
  )

  -- A signature that was seen, or is that of something yielded.
  abbrev IsSeen : List (ℕ × ℕ) → List (Text × Bytes) → Queued → Type 0
  IsSeen seen yielded q =
      (any_of (same (signature q.candidate)) seen
        || any_of (same (signature q.candidate))
            (map (λ (c : Text × Bytes). signature c.1) yielded))
      ≡ true

  module _ (P : Queued → Type 0) (closed : (q : Queued) → P q → All P (nested decompress q)) where
    -- How the loop ends.
    record Ends (seen : List (ℕ × ℕ)) (queue : List Queued) (result : Option (List (Text × Bytes)))
        : Type 0 where
      yielded : List (Text × Bytes)
      returns : result ≡ some yielded
      sound : All (λ (c : Text × Bytes). (q : Queued) × P q × (q.candidate ≡ c.1)) yielded
      complete : All (IsSeen seen yielded) queue

    IsSeen-before :
        (seen : List (ℕ × ℕ)) (yielded : List (Text × Bytes)) (q : Queued)
        → any_of (same (signature q.candidate)) seen ≡ true
        → IsSeen seen yielded q
    IsSeen-before seen yielded q h = rw h refl

    same_refl : (s : ℕ × ℕ) → same s s ≡ true
    same_refl (a, b) = rw (==_refl a, ==_refl b) refl

    now-IsSeen :
        (seen : List (ℕ × ℕ)) (yielded : List (Text × Bytes)) (q : Queued)
        → IsSeen seen ((q.label, q.candidate) ∷ yielded) q
    now-IsSeen seen yielded q = let e = same_refl (signature q.candidate) in ground arith

    -- A signature moves from what is yielded to what was seen.
    IsSeen-moves :
        (seen : List (ℕ × ℕ)) (yielded : List (Text × Bytes)) (q r : Queued)
        → IsSeen (signature q.candidate ∷ seen) yielded r
        → IsSeen seen ((q.label, q.candidate) ∷ yielded) r
    IsSeen-moves seen yielded q r h = ground arith

    All-moves :
        (seen : List (ℕ × ℕ)) (yielded : List (Text × Bytes)) (q : Queued) (rs extra : List Queued)
        → All (IsSeen (signature q.candidate ∷ seen) yielded) (rs ++ extra)
        → All (IsSeen seen ((q.label, q.candidate) ∷ yielded)) rs
    All-moves seen yielded q [] extra h = tt
    All-moves seen yielded q (r ∷ rs) extra (h, hs) =
        (IsSeen-moves seen yielded q r h, All-moves seen yielded q rs extra hs)

    loop-Ends :
        (fuel : ℕ) (seen : List (ℕ × ℕ)) (queue : List Queued)
        → rounds queue ≤ fuel
        → All P queue
        → Ends seen queue (candidates_from decompress fuel seen queue)
    unfolding candidates_from rounds
    loop-Ends fuel seen [] f h = record { yielded = []; returns = refl; sound = tt; complete = tt }
    loop-Ends zero seen (q ∷ queue) f h = absurd (omega arith)
    loop-Ends (suc fuel) seen (q ∷ queue) f (hq, hs) =
        elim (Bool-cases (any_of (same (signature q.candidate)) seen)) [
          | inl old ↦
              let rest = loop-Ends fuel seen queue (omega arith) hs in
              record {
                yielded = rest.yielded;
                returns = rw old rest.returns;
                sound = rest.sound;
                complete = (IsSeen-before seen rest.yielded q old, rest.complete);
              }
          | inr new ↦
              let rest =
                loop-Ends fuel (signature q.candidate ∷ seen) (queue ++ nested decompress q)
                  (omega (arith, rounds-append queue (nested decompress q), rounds-nested q))
                  (All-append P queue (nested decompress q) hs (closed q hq)) in
              record {
                yielded = (q.label, q.candidate) ∷ rest.yielded;
                returns = rw new (rw rest.returns refl);
                sound = ((q, hq, refl), rest.sound);
                complete = (
                  now-IsSeen seen rest.yielded q,
                  All-moves seen rest.yielded q queue (nested decompress q) rest.complete,
                );
              }
        ]

  module _ (boot_region : Bytes) where
    abbrev raw : Queued
    raw = record { label = codes "raw"; candidate = boot_region; depth = 0 }

    abbrev members : List Member
    members = scan_compressed_members decompress boot_region

    -- What a member of the region holds.
    record Comes (q : Queued) : Type 0 where
      behind : q.depth ≡ 1
      held : (m : Member) × IsIn m members × (m.payload ≡ q.candidate)

    members-Comes :
        (ms : List Member) → All (λ m. IsIn m members) ms → All Comes (map (queue_member 0) ms)
    members-Comes [] h = tt
    members-Comes (m ∷ ms) (h, hs) =
        (record { behind = refl; held = (m, h, refl) }, members-Comes ms hs)

    nested-Comes : (q : Queued) → Comes q → All Comes (nested decompress q)
    unfolding nested
    nested-Comes q c = rw (c.behind) tt

    held-All :
        (cs : List (Text × Bytes))
        → All (λ (c : Text × Bytes). (q : Queued) × Comes q × (q.candidate ≡ c.1)) cs
        → All (λ (c : Text × Bytes). (m : Member) × IsIn m members × (m.payload ≡ c.1)) cs
    held-All [] h = tt
    held-All (c ∷ cs) (h, hs) = ((h.1.held.0, h.1.held.1, h.1.held.2 ∙ h.2), held-All cs hs)

    seen-All :
        (others : List (Text × Bytes)) (ms : List Member)
        → All (IsSeen (signature boot_region ∷ []) others) (map (queue_member 0) ms)
        → All
            (λ (m : Member).
              any_of
                (same (signature m.payload))
                (map (λ (c : Text × Bytes). signature c.1) ((codes "raw", boot_region) ∷ others))
              ≡ true)
            ms
    seen-All others [] h = tt
    seen-All others (m ∷ ms) (h, hs) =
        (IsSeen-moves Comes nested-Comes [] others raw (queue_member 0 m) h, seen-All others ms hs)

    -- The region comes first, then what its members hold, each text's size and CRC but once.
    pub record IsCandidates (candidates : List (Text × Bytes)) : Type 0 where
      pub others : List (Text × Bytes)
      pub first : candidates ≡ (codes "raw", boot_region) ∷ others
      pub sound :
          All (λ (c : Text × Bytes). (m : Member) × IsIn m members × (m.payload ≡ c.1)) others
      pub complete :
          All
            (λ (m : Member).
              any_of
                (same (signature m.payload))
                (map (λ (c : Text × Bytes). signature c.1) candidates)
              ≡ true)
            members

    -- With one round for the boot region and one for each compressed member of it, the loop over
    -- the candidates ends. It yields the region first and then only what decompressed members hold;
    -- and of every member it yields that or a text of the same size and the same CRC of the first
    -- 4096 bytes.
    pub iter_uboot_candidates_ends :
        (candidates : List (Text × Bytes)) × (iter_uboot_candidates decompress
            (enough decompress boot_region)
            boot_region
          ≡ some candidates)
        × IsCandidates candidates
    unfolding iter_uboot_candidates candidates_from nested
    iter_uboot_candidates_ends =
        let rest =
          loop-Ends Comes nested-Comes (length members) (signature boot_region ∷ [])
            (map (queue_member 0) members) (omega (arith, rounds-members 0 members))
            (members-Comes members (All-IsIn (λ m. IsIn m members) members (λ m h. h))) in
        (
          (codes "raw", boot_region) ∷ rest.yielded,
          rw rest.returns refl,
          record {
            others = rest.yielded;
            first = refl;
            sound = held-All rest.yielded rest.sound;
            complete = seen-All rest.yielded members rest.complete;
          },
        )
