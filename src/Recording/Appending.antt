-- ===== src/Recording/Appending.antt =====
-- What AppendEvents of proxy/internal/recording/store.go adds to the events of a recording.
use rdp_warp_portal.Prelude.{
  ℕ, ◌+◌, ◌≤◌, ◌≡◌, refl, ap, sym, ◌++◌, Result, err, ◌∙◌, inl, inr, none, some, List, nat_eq,
  text_eq, Text, ok, Result-cases, arith, beq_refl,
}
use rdp_warp_portal.Prelude.Assoc.{lookup, insert, lookup-insert}
use rdp_warp_portal.Prelude.Weights.{total_of, total_of-append}
use rdp_warp_portal.Recording.Calls.{read_metadata-ok}
use rdp_warp_portal.Recording.Lines.{append_lines-whole, cut_lines-whole}
use rdp_warp_portal.Recording.Store.{
  Recording, Directory, Disk, Write, done, refused, cut, read_metadata, append_events_to,
  append_events, write_metadata, Ending, whole, Lines, append_lines, cut_lines, StoreError,
  file_failed,
}

-- How the events of a recording end.
unfoldable pub ending_of : {E : Type 0} → Text → Disk E → Ending
ending_of id disk = elim (lookup id disk) [ none ↦ whole | some d ↦ d.ending ]

module _ {E : Type 0} where
  ending_of-found :
      (id : Text) (disk : Disk E) (d : Directory E)
      → lookup id disk ≡ some d
      → ending_of id disk ≡ d.ending
  unfolding ending_of
  ending_of-found id disk d h = rw (ending_of, h) refl

  ending_of-insert :
      (id : Text) (disk : Disk E) (d : Directory E) → ending_of id (insert id d disk) ≡ d.ending
  ending_of-insert id disk d =
      ending_of-found id (insert id d disk) d (lookup-insert id id d disk ∙ rw (beq_refl id) refl)

module _ {E : Type 0} (f : E → ℕ) where
  -- The weight of the events that are in the file of a recording.
  unfoldable pub stored : Text → Disk E → ℕ
  unfolding total_of
  stored id disk = elim (lookup id disk) [ none ↦ 0 | some d ↦ total_of f d.events ]

  stored_found :
      (id : Text) (disk : Disk E) (d : Directory E)
      → lookup id disk ≡ some d
      → stored id disk ≡ total_of f d.events
  unfolding stored
  stored_found id disk d h = rw (stored, h) refl

  stored-insert :
      (id : Text) (disk : Disk E) (d : Directory E)
      → stored id (insert id d disk) ≡ total_of f d.events
  stored-insert id disk d =
      stored_found id (insert id d disk) d (lookup-insert id id d disk ∙ rw (beq_refl id) refl)

  -- One write of lines, as far as the file ends well.
  Adds : Directory E → Directory E → List E → Type 0
  Adds d d' more = d'.ending ≡ whole → (d.ending ≡ whole) × (d'.events ≡ d.events ++ more)

  -- As far as the file ends well after the call: it did before, it has lost nothing, and it has all of
  -- the events if the call succeeds.
  Grows : List E → Directory E → Directory E → Result StoreError (Unit {0}) → Type 0
  Grows events d d' result =
      d'.ending ≡ whole
      → (d.ending ≡ whole)
        × (total_of f d.events ≤ total_of f d'.events)
        × (result ≡ ok tt → total_of f d'.events ≡ total_of f d.events + total_of f events)

  Adds-Grows :
      (events more : List E) (d d' : Directory E) (result : Result StoreError (Unit {0}))
      → (result ≡ ok tt → more ≡ events)
      → Adds d d' more
      → Grows events d d' result
  unfolding Adds Grows
  Adds-Grows events more d d' result whole_of adds h =
      let (before, all) = adds h in
      let sum = ap (total_of f) all ∙ total_of-append f d.events more in
      (
        before,
        omega (arith, sum),
        λ good. sum ∙ ap (λ e. total_of f d.events + total_of f e) (whole_of good),
      )

  append_events_to-Grows :
      (copy : Write (Lines E)) (write : Write (Unit {0})) (events : List E) (d : Directory E)
      (rec : Recording)
      → Grows events d
          (append_events_to copy write events d rec).0
          (append_events_to copy write events d rec).1
  unfolding append_events_to write_metadata Adds Grows
  append_events_to-Grows refused write events d rec = λ h. (h, omega arith, λ good. absurd (cc))
  append_events_to-Grows (cut part) write events d rec =
      Adds-Grows events part.0 d (cut_lines part d) (err file_failed) (λ good. absurd (cc))
        (cut_lines-whole part d)
  append_events_to-Grows done done events d rec =
      Adds-Grows events events d (append_events_to done done events d rec).0 (ok tt) (λ good. refl)
        (append_lines-whole events d)
  append_events_to-Grows done refused events d rec =
      Adds-Grows events events d (append_lines events d) (err file_failed) (λ good. refl)
        (append_lines-whole events d)
  append_events_to-Grows done (cut part) events d rec =
      Adds-Grows events events d (append_events_to done (cut part) events d rec).0 (err file_failed)
        (λ good. refl) (append_lines-whole events d)

  -- If the file ends well after a call, it did before; then the call has taken no event out of it, and
  -- one that succeeds has added all of its events.
  pub append_events-grows :
      (copy : Write (Lines E)) (write : Write (Unit {0})) (id : Text) (events : List E)
      (disk : Disk E)
      → ending_of id (append_events copy write id events disk).0 ≡ whole
      → (ending_of id disk ≡ whole)
        × (stored id disk ≤ stored id (append_events copy write id events disk).0)
        × ((append_events copy write id events disk).1 ≡ ok tt
            → stored id (append_events copy write id events disk).0
              ≡ stored id disk + total_of f events)
  unfolding append_events Grows
  append_events-grows copy write id events disk h = elim (Result-cases (read_metadata id disk)) [
    | inl (e, bad) ↦
        let same = rw (append_events, bad) at h in
        rw (append_events, bad) (same, omega arith, λ good. absurd (cc))
    | inr ((d, rec), good) ↦
        let (found, read) = read_metadata-ok id disk d rec good in
        let d' = (append_events_to copy write events d rec).0 in
        let ends : d'.ending ≡ whole =
          sym (ending_of-insert id disk d') ∙ (rw (append_events, good) at h) in
        let (before, grows, all) = append_events_to-Grows copy write events d rec ends in
        let was = ending_of-found id disk d found ∙ before in
        rw (append_events, good)
          (rw (stored_found id disk d found, stored-insert id disk d') (was, grows, all))
  ]
