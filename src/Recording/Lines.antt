-- ===== src/Recording/Lines.antt =====
-- What a write to events.jsonl in proxy/internal/recording/store.go leaves, if the file ends well.
use rdp_warp_portal.Prelude.{
  ◌≡◌, ◌⊎◌, refl, beq_eq, sym, ◌∙◌, inl, inr, true, List, [], ◌∷◌, ◌++◌, length, append-nil, ◌==◌,
  nat_eq, arith, Bool-cases,
}
use rdp_warp_portal.Recording.Store.{
  Directory, Ending, whole, unended, spoiled, Lines, at_line, in_line, before_newline, spoil,
  append_lines, cut_lines,
}

pub Ending-cases : (e : Ending) → (e ≡ whole) ⊎ (e ≡ unended) ⊎ (e ≡ spoiled)
Ending-cases whole = inl refl
Ending-cases unended = inr (inl refl)
Ending-cases spoiled = inr (inr refl)

module _ {E : Type 0} where
  -- Only the events and the end of their file change.
  pub record SameFiles (d d' : Directory E) : Type 0 where
    pub metadata : d'.metadata ≡ d.metadata
    pub chunks : d'.chunks ≡ d.chunks

  spoil-SameFiles : (d : Directory E) → SameFiles d (spoil d)
  unfolding spoil
  spoil-SameFiles d = elim (Ending-cases d.ending) [
    | inl e ↦ rw (spoil, e) (record { metadata = refl; chunks = refl })
    | inr (inl e) ↦ rw (spoil, e) (record { metadata = refl; chunks = refl })
    | inr (inr e) ↦ rw (spoil, e) (record { metadata = refl; chunks = refl })
  ]

  spoil-ending : (d : Directory E) → (spoil d).ending ≡ spoiled
  unfolding spoil
  spoil-ending d = elim (Ending-cases d.ending) [
    | inl e ↦ rw (spoil, e) refl
    | inr (inl e) ↦ rw (spoil, e) refl
    | inr (inr e) ↦ rw (spoil, e) e
  ]

  pub append_lines-SameFiles :
      (events : List E) (d : Directory E) → SameFiles d (append_lines events d)
  unfolding append_lines
  append_lines-SameFiles events d = elim (Ending-cases d.ending) [
    | inl e ↦ rw (append_lines, e) (record { metadata = refl; chunks = refl })
    | inr (inl e) ↦ elim (Bool-cases (length events == 0)) [
      | inl none_there ↦
          rw (append_lines, e, none_there) (record { metadata = refl; chunks = refl })
      | inr more ↦ simp (append_lines, e, more) (spoil-SameFiles d)
    ]
    | inr (inr e) ↦ rw (append_lines, e) (record { metadata = refl; chunks = refl })
  ]

  -- A file that ends well after the write ended well before it, and has the written events at its end.
  pub append_lines-whole :
      (events : List E) (d : Directory E)
      → (append_lines events d).ending ≡ whole
      → (d.ending ≡ whole) × ((append_lines events d).events ≡ d.events ++ events)
  unfolding append_lines
  append_lines-whole events d h = elim (Ending-cases d.ending) [
    | inl e ↦ rw (append_lines, e) (refl, refl)
    | inr (inl e) ↦ elim (Bool-cases (length events == 0)) [
      | inl none_there ↦ absurd (cc (rw (append_lines, e, none_there) at h))
      | inr more ↦ absurd (cc (rw (append_lines, e, more) at h, spoil-ending d))
    ]
    | inr (inr e) ↦ absurd (cc (rw (append_lines, e) at h))
  ]

  pub append_lines_lem :
      (events : List E) (d : Directory E)
      → d.ending ≡ whole
      → append_lines events d ≡ record d { events = d.events ++ events }
  unfolding append_lines
  append_lines_lem events d e = simp (append_lines, e) refl

  no_lines : (events : List E) → (length events == 0) ≡ true → events ≡ []
  no_lines [] h = refl
  no_lines (e ∷ es) h = absurd (omega (arith, beq_eq (length (e ∷ es)) 0 h))

  pub cut_lines-SameFiles : (part : Lines E) (d : Directory E) → SameFiles d (cut_lines part d)
  unfolding cut_lines
  cut_lines-SameFiles (events, at_line) d = append_lines-SameFiles events d
  cut_lines-SameFiles (events, in_line) d =
      let first = append_lines-SameFiles events d in
      let later = spoil-SameFiles (append_lines events d) in
      record { metadata = later.metadata ∙ first.metadata; chunks = later.chunks ∙ first.chunks }
  cut_lines-SameFiles (events, before_newline) d = elim (Bool-cases (length events == 0)) [
    | inl none_there ↦ rw (cut_lines, none_there) (record { metadata = refl; chunks = refl })
    | inr more ↦
        let same = append_lines-SameFiles events d in
        elim (Ending-cases (append_lines events d).ending) [
          | inl e ↦
              rw (cut_lines, more, e) (record { metadata = same.metadata; chunks = same.chunks })
          | inr (inl e) ↦ rw (cut_lines, more, e) same
          | inr (inr e) ↦ rw (cut_lines, more, e) same
        ]
  ]

  pub cut_lines-whole :
      (part : Lines E) (d : Directory E)
      → (cut_lines part d).ending ≡ whole
      → (d.ending ≡ whole) × ((cut_lines part d).events ≡ d.events ++ part.0)
  unfolding cut_lines
  cut_lines-whole (events, at_line) d h = append_lines-whole events d h
  cut_lines-whole (events, in_line) d h = absurd (cc (spoil-ending (append_lines events d)))
  cut_lines-whole (events, before_newline) d h = elim (Bool-cases (length events == 0)) [
    | inl none_there ↦
        let nothing = no_lines events none_there in
        (
          rw (cut_lines, none_there) at h,
          rw (cut_lines, none_there, nothing) (sym (append-nil d.events)),
        )
    | inr more ↦ elim (Ending-cases (append_lines events d).ending) [
      | inl e ↦ absurd (cc (rw (cut_lines, more, e) at h))
      | inr (inl e) ↦ absurd (cc (rw (cut_lines, more, e) at h))
      | inr (inr e) ↦ absurd (cc (rw (cut_lines, more, e) at h))
    ]
  ]
