-- ===== src/Composer/Taken.antt =====
-- The composer's test of the attachments against that of the store, which takes the message.
use agentmeld.Prelude.{
  ℕ, ◌+◌, String, Bool, true, false, List, [], ◌∷◌, ◌++◌, ◌⊎◌, inl, inr, Option, none, some, ltb,
  leb, length, string_eq, if◌then◌else◌, ◌≡◌, ◌↔◌, refl, sym, subst, arith, All, map, Bool-cases,
}
use agentmeld.Data.{File}
use agentmeld.Prelude.Fields.{given}
use agentmeld.Store.{Attachment, Refusal}
use agentmeld.Store.Check.{
  named_file, read_file, check_files, check_attachments, total_limit, refusal,
}
use agentmeld.Composer.{
  Draft, Objection, too_many, too_large_together, size_of, check_drafts, validate_attachments,
}

-- What app.js sends for a draft.
abbrev pub sent_file : Draft → Attachment
sent_file f = record { name = given f.name; content = given f.content; extra_keys = false }

abbrev pub stored_file : Draft → File
stored_file f = record { name = f.name; content = f.content }

abbrev fits : Objection ⊎ ℕ → Bool
fits (inl o) = false
fits (inr total) = leb total total_limit

abbrev taken : Refusal ⊎ List File → Bool
taken (inl r) = false
taken (inr fs) = true

-- The ends of the two functions.
abbrev objection_of : Bool → Objection ⊎ ℕ → Option Objection
objection_of limited o = if limited then some too_many else elim o [
  | inl e ↦ some e
  | inr total ↦ if ltb total_limit total then some too_large_together else none
]

abbrev reply : Bool → Refusal ⊎ List File → Refusal ⊎ List File
reply limited r = if limited then inl (refusal "Attach up to five files." 400) else r

-- The total never shrinks.
fits-check_drafts :
    (names : List String) (total : ℕ) (fs : List Draft)
    → ltb total_limit total ≡ true
    → fits (check_drafts names total fs) ≡ false
unfolding check_drafts
fits-check_drafts names total [] h = ground (arith, h)
fits-check_drafts names total (f ∷ fs) h =
    ground (
      arith,
      h,
      fits-check_drafts (names ++ f.name ∷ []) (total + size_of f) fs (ground (arith, h)),
    )

-- Both loops, from names and a total that both have reached.
fits-taken :
    (names : List String) (total : ℕ) (fs : List Draft)
    → leb total total_limit ≡ true
    → All (λ f. size_of f ≡ length f.content) fs
    → fits (check_drafts names total fs) ≡ taken (check_files names total (map sent_file fs))
unfolding check_drafts check_files read_file named_file
fits-taken names total [] h sizes = ground (arith, h)
fits-taken names total (f ∷ fs) h sizes =
    elim (Bool-cases (leb (total + length f.content) total_limit)) [
      | inl low ↦ ground (
        arith,
        h,
        sizes.0,
        low,
        fits-taken (names ++ f.name ∷ []) (total + length f.content) fs low sizes.1,
      )
      | inr high ↦ ground (
        arith,
        h,
        sizes.0,
        high,
        fits-check_drafts (names ++ f.name ∷ []) (total + length f.content) fs
            (ground (arith, high)),
      )
    ]

taken-check_files :
    (names : List String) (total : ℕ) (fs : List Draft)
    → taken (check_files names total (map sent_file fs)) ≡ true
    → check_files names total (map sent_file fs) ≡ inr (map stored_file fs)
unfolding check_files read_file named_file
taken-check_files names total [] h = refl
taken-check_files names total (f ∷ fs) h =
    ground (arith, h, taken-check_files (names ++ f.name ∷ []) (total + length f.content) fs)

length-sent : (fs : List Draft) → length (map sent_file fs) ≡ length fs
length-sent [] = refl
length-sent (f ∷ fs) = ground (arith, length-sent fs)

-- Two outcomes that agree, seen through the limit on the number of files.
accepts :
    (limited : Bool) (o : Objection ⊎ ℕ) (r : Refusal ⊎ List File) (fs : List File)
    → fits o ≡ taken r
    → (taken r ≡ true → r ≡ inr fs)
    → objection_of limited o ≡ none ↔ reply limited r ≡ inr fs
accepts true o r fs same files = (λ h. absurd (ground (arith, h)), λ h. absurd (ground (arith, h)))
accepts false (inl o) (inl r) fs same files =
    (λ h. absurd (ground (arith, h)), λ h. absurd (ground (arith, h)))
accepts false (inl o) (inr gs) fs same files = absurd (ground (arith, same))
accepts false (inr total) (inl r) fs same files =
    (λ h. absurd (ground (arith, h, same)), λ h. absurd (ground (arith, h)))
accepts false (inr total) (inr gs) fs same files = (λ h. files refl, λ h. ground (arith, same))

-- The composer and the store take the same attachments: for drafts whose sizes are those of their bytes, the
-- composer finds no objection exactly when the store takes what is sent, with these names, bytes and order.
pub validate_attachments-check_attachments :
    (existing incoming : List Draft)
    → All (λ f. size_of f ≡ length f.content) (existing ++ incoming)
    → validate_attachments existing incoming ≡ none
      ↔ check_attachments (given (map sent_file (existing ++ incoming)))
        ≡ inr (map stored_file (existing ++ incoming))
unfolding validate_attachments check_attachments
validate_attachments-check_attachments existing incoming sizes =
    subst
      (λ n.
        validate_attachments existing incoming ≡ none
        ↔ reply (ltb 5 n) (check_files [] 0 (map sent_file (existing ++ incoming)))
          ≡ inr (map stored_file (existing ++ incoming)))
      (sym (length-sent (existing ++ incoming)))
      (accepts (ltb 5 (length (existing ++ incoming))) (check_drafts [] 0 (existing ++ incoming))
        (check_files [] 0 (map sent_file (existing ++ incoming)))
        (map stored_file (existing ++ incoming)) (fits-taken [] 0 (existing ++ incoming) refl sizes)
        (taken-check_files [] 0 (existing ++ incoming)))
