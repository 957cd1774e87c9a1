-- ===== src/Recording/Agreement.antt =====
-- The metadata of a recording agrees with its files, after any sequence of calls.
use rdp_warp_portal.Prelude.{
  ℕ, zero, suc, ◌+◌, ◌≤◌, ◌<◌, ◌≡◌, refl, ap, sym, subst, ◌∙◌, inl, inr, Bool, true, none, some,
  List, [], ◌∷◌, ◌++◌, ◌==◌, nat_eq, text_eq, Text, length, arith, length-append, Bool-cases,
}
use rdp_warp_portal.Prelude.Assoc.{GoMap, lookup, insert, lookup-insert}
use rdp_warp_portal.Recording.Lines.{
  SameFiles, append_lines-SameFiles, append_lines-whole, cut_lines-SameFiles, cut_lines-whole,
}
use rdp_warp_portal.Recording.Store.{
  whole, Lines, append_lines, cut_lines, Recording, readable, Directory, Disk, Write, done, refused,
  cut, write_metadata, with_chunk, completed_at, append_chunk_to, append_events_to, finalize_dir,
}

-- The bytes of the chunk files with a number below `n`.
unfoldable pub bytes_below : ℕ → GoMap ℕ Text → ℕ
bytes_below zero chunks = 0
bytes_below (suc n) chunks =
    bytes_below n chunks + elim (lookup n chunks) [ none ↦ 0 | some c ↦ length c ]

bytes_below-insert :
    (n k : ℕ) (c : Text) (chunks : GoMap ℕ Text)
    → n ≤ k
    → bytes_below n (insert k c chunks) ≡ bytes_below n chunks
unfolding bytes_below
bytes_below-insert zero k c chunks h = refl
bytes_below-insert (suc n) k c chunks h =
    ground (arith, lookup-insert k n c chunks, bytes_below-insert n k c chunks)

module _ {E : Type 0} where
  -- Each counted chunk has its file, the durations and the bytes are those of the counted chunks, and
  -- no more events are counted than the file holds, unless its lines are broken.
  pub record Agrees (d : Directory E) (rec : Recording) : Type 0 where
    pub there : (i : ℕ) → i < rec.chunk_count → (c : Text) × (lookup i d.chunks ≡ some c)
    pub durations : length rec.chunk_durations ≡ rec.chunk_count
    pub bytes : bytes_below rec.chunk_count d.chunks ≡ rec.total_bytes
    pub counted : d.ending ≡ whole → rec.event_count ≤ length d.events

  abbrev pub Sound : Directory E → Type 0
  Sound d = (rec : Recording) → d.metadata ≡ readable rec → Agrees d rec

  abbrev pub DiskSound : Disk E → Type 0
  DiskSound disk = (id : Text) (d : Directory E) → lookup id disk ≡ some d → Sound d

  pub write_metadata-Sound :
      (w : Write (Unit {0})) (rec : Recording) (d : Directory E)
      → Sound d
      → Agrees d rec
      → Sound (write_metadata w rec d).0
  unfolding write_metadata
  write_metadata-Sound done rec d sound agrees = λ r e.
      let same : rec ≡ r = cc in
      subst (Agrees (record d { metadata = readable rec })) same (record {
        there = agrees.there;
        durations = agrees.durations;
        bytes = agrees.bytes;
        counted = agrees.counted;
      })
  write_metadata-Sound refused rec d sound agrees = sound
  write_metadata-Sound (cut part) rec d sound agrees = λ r e. absurd (cc)

  pub insert-DiskSound :
      (id : Text) (d : Directory E) (disk : Disk E)
      → DiskSound disk
      → Sound d
      → DiskSound (insert id d disk)
  insert-DiskSound id d disk sound good k f found = elim (Bool-cases (id == k)) [
    | inl same ↦
        let here : some d ≡ some f = sym (lookup-insert id k d disk ∙ rw same refl) ∙ found in
        subst Sound (cc) good
    | inr other ↦ sound k f (sym (lookup-insert id k d disk ∙ rw other refl) ∙ found)
  ]

  -- A chunk file at or above the count is no counted chunk.
  chunk-Agrees :
      (d : Directory E) (rec : Recording) (c : Text)
      → Agrees d rec
      → Agrees (record d { chunks = insert rec.chunk_count c d.chunks }) rec
  chunk-Agrees d rec c agrees = record {
    there = λ i below.
        let (old, found) = agrees.there i below in
        (old, ground (arith, lookup-insert rec.chunk_count i c d.chunks));
    durations = agrees.durations;
    bytes =
        bytes_below-insert rec.chunk_count rec.chunk_count c d.chunks (omega arith) ∙ agrees.bytes;
    counted = agrees.counted;
  }

  with_chunk-Agrees :
      (d : Directory E) (rec : Recording) (c : Text) (duration : ℕ)
      → Agrees d rec
      → Agrees (record d { chunks = insert rec.chunk_count c d.chunks }) (with_chunk c duration rec)
  unfolding with_chunk bytes_below
  with_chunk-Agrees d rec c duration agrees =
      let old = chunk-Agrees d rec c agrees in
      let at = lookup-insert rec.chunk_count rec.chunk_count c d.chunks in
      record {
        there = λ i below. elim (Bool-cases (rec.chunk_count == i)) [
          | inl same ↦ (c, lookup-insert rec.chunk_count i c d.chunks ∙ rw same refl)
          | inr other ↦ old.there i (ground arith)
        ];
        durations =
            ground (arith, length-append rec.chunk_durations (duration ∷ []), agrees.durations);
        bytes = ground (arith, at, old.bytes);
        counted = agrees.counted;
      }

  module _ (d : Directory E) (rec : Recording) (read : d.metadata ≡ readable rec)
      (sound : Sound d) where
    pub append_chunk_to-Sound :
        (copy : Write Text) (write : Write (Unit {0})) (c : Text) (duration : ℕ)
        → Sound (append_chunk_to copy write c duration d rec).0
    unfolding append_chunk_to
    append_chunk_to-Sound refused write c duration = sound
    append_chunk_to-Sound (cut part) write c duration = λ r e.
        let same : rec ≡ r = cc in
        subst (Agrees (record d { chunks = insert rec.chunk_count part d.chunks })) same
          (chunk-Agrees d rec part (sound rec read))
    append_chunk_to-Sound done write c duration =
        let stored = record d { chunks = insert rec.chunk_count c d.chunks } in
        write_metadata-Sound write (with_chunk c duration rec) stored
          (λ r e.
            let same : rec ≡ r = cc in
            subst (Agrees stored) same (chunk-Agrees d rec c (sound rec read)))
          (with_chunk-Agrees d rec c duration (sound rec read))

    -- More lines of events than are counted do no harm.
    lines-Agrees :
        (d' : Directory E) (n : ℕ)
        → SameFiles d d'
        → (d'.ending ≡ whole → n ≤ length d'.events)
        → Agrees d' (record rec { event_count = n })
    lines-Agrees d' n same bound =
        let agrees = sound rec read in
        record {
          there = λ i below.
              let (c, found) = agrees.there i below in (c, ap (lookup i) same.chunks ∙ found);
          durations = agrees.durations;
          bytes = ap (bytes_below rec.chunk_count) same.chunks ∙ agrees.bytes;
          counted = bound;
        }

    lines-Sound :
        (d' : Directory E) (more : List E)
        → SameFiles d d'
        → (d'.ending ≡ whole → (d.ending ≡ whole) × (d'.events ≡ d.events ++ more))
        → Sound d'
    lines-Sound d' more same longer r e =
        let one : rec ≡ r = cc (same.metadata, e, read) in
        subst (Agrees d') one (
          lines-Agrees d' rec.event_count same (λ h.
            let (before, all) = longer h in
            let n = ap length all ∙ length-append d.events more in
            omega (arith, n, (sound rec read).counted before)))

    pub append_events_to-Sound :
        (copy : Write (Lines E)) (write : Write (Unit {0})) (events : List E)
        → Sound (append_events_to copy write events d rec).0
    unfolding append_events_to
    append_events_to-Sound refused write events = sound
    append_events_to-Sound (cut part) write events =
        lines-Sound (cut_lines part d) part.0 (cut_lines-SameFiles part d) (cut_lines-whole part d)
    append_events_to-Sound done write events =
        let same = append_lines-SameFiles events d in
        let longer = append_lines-whole events d in
        write_metadata-Sound write _ (append_lines events d)
          (lines-Sound (append_lines events d) events same longer)
          (lines-Agrees (append_lines events d) (rec.event_count + length events) same (λ h.
            let (before, all) = longer h in
            let n = ap length all ∙ length-append d.events events in
            omega (arith, n, (sound rec read).counted before)))

    completed-Agrees :
        (now : ℕ) (video : Bool) → Agrees (record d { video = video }) (completed_at now rec)
    unfolding completed_at
    completed-Agrees now video =
        let agrees = sound rec read in
        record {
          there = agrees.there;
          durations = agrees.durations;
          bytes = agrees.bytes;
          counted = agrees.counted;
        }

    with_video-Sound : Sound (record d { video = true })
    with_video-Sound r e =
        let agrees = sound r e in
        record {
          there = agrees.there;
          durations = agrees.durations;
          bytes = agrees.bytes;
          counted = agrees.counted;
        }

    pub finalize_dir-Sound :
        (listed joined : Bool) (write : Write (Unit {0})) (now : ℕ)
        → Sound (finalize_dir listed joined write now d rec).0
    unfolding finalize_dir
    finalize_dir-Sound listed joined write now =
        let bare =
          write_metadata-Sound write (completed_at now rec) d sound
            (completed-Agrees now d.video) in
        let full =
          write_metadata-Sound write (completed_at now rec) (record d { video = true })
            with_video-Sound (completed-Agrees now true) in
        elim (Bool-cases (rec.chunk_count == 0)) [
          | inl e ↦ rw e bare
          | inr e ↦ elim (Bool-cases listed) [
            | inr n ↦ rw (e, n) sound
            | inl l ↦ elim (Bool-cases joined) [
              | inr n ↦ rw (e, l, n) sound
              | inl j ↦ rw (e, l, j) full
            ]
          ]
        ]
