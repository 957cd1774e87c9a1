-- ===== src/Recording/Upload.antt =====
-- What an upload of a chunk does.
use rdp_warp_portal.Prelude.{
  ℕ, suc, ◌+◌, ◌++◌, ◌∷◌, [], length, ◌≡◌, sym, ap, ◌∙◌, inl, inr, some, if◌then◌else◌, ◌==◌,
  nat_eq, text_eq, Text, ok, Result-cases,
}
use rdp_warp_portal.Prelude.Assoc.{lookup, insert, lookup-insert}
use rdp_warp_portal.Recording.Store.{
  Recording, readable, Directory, Disk, Write, done, refused, cut, read_metadata, append_chunk_to,
  append_chunk, with_chunk, write_metadata,
}

module _ {E : Type 0} where
  -- The directory once the chunk is stored and counted.
  abbrev pub uploaded : Text → ℕ → Directory E → Recording → Directory E
  uploaded content duration d rec = record d {
    chunks = insert rec.chunk_count content d.chunks;
    metadata = readable (record rec {
      chunk_count = suc rec.chunk_count;
      total_bytes = rec.total_bytes + length content;
      chunk_durations = rec.chunk_durations ++ (duration ∷ []);
    });
  }

  append_chunk_to-ok :
      (copy : Write Text) (write : Write (Unit {0})) (content : Text) (duration n : ℕ)
      (d d' : Directory E) (rec : Recording)
      → append_chunk_to copy write content duration d rec ≡ (d', ok n)
      → (n ≡ rec.chunk_count) × (d' ≡ uploaded content duration d rec)
  unfolding append_chunk_to write_metadata with_chunk
  append_chunk_to-ok refused write content duration n d d' rec h = absurd (cc)
  append_chunk_to-ok (cut part) write content duration n d d' rec h = absurd (cc)
  append_chunk_to-ok done done content duration n d d' rec h = (cc, sym (ap (λ r. r.0) h))
  append_chunk_to-ok done refused content duration n d d' rec h = absurd (cc)
  append_chunk_to-ok done (cut part) content duration n d d' rec h = absurd (cc)

  -- An upload that succeeds returns the number of chunks that the recording had: the file of that
  -- number has the content, the metadata counts it, with its bytes and its duration, and nothing else
  -- of the recording or of any other recording has changed.
  pub append_chunk-ok :
      (copy : Write Text) (write : Write (Unit {0})) (id content other : Text) (duration n : ℕ)
      (disk disk' : Disk E)
      → append_chunk copy write id content duration disk ≡ (disk', ok n)
      → (d : Directory E) × (rec : Recording) × (read_metadata id disk ≡ ok (d, rec))
        × (n ≡ rec.chunk_count)
        × (lookup other disk'
            ≡ (if id == other then some (uploaded content duration d rec) else lookup other disk))
  unfolding append_chunk
  append_chunk-ok copy write id content other duration n disk disk' h =
      elim (Result-cases (read_metadata id disk)) [
        | inl (e, bad) ↦ absurd (cc (rw (bad, append_chunk) at h))
        | inr ((d, rec), good) ↦
            let made = rw (good, append_chunk) at h in
            let r = append_chunk_to copy write content duration d rec in
            let (count, same) =
              append_chunk_to-ok copy write content duration n d r.0 rec
                (ap (λ x. (r.0, x)) (ap (λ x. x.1) made)) in
            (
              d,
              rec,
              good,
              count,
              ap (lookup other) (sym (ap (λ x. x.0) made))
                  ∙ lookup-insert id other r.0 disk
                  ∙ ap (λ x. if id == other then some x else lookup other disk) same,
            )
      ]
