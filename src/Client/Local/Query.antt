-- ===== src/Client/Local/Query.antt =====
-- What a query for a contact resolves to.
use sechat_client.Base.{
  ◌≡◌, refl, ap, ◌⊎◌, inl, inr, Bool, true, none, some, List, [], ◌∷◌, ◌++◌, arith, Bool-cases,
  Option-cases,
}
use sechat_client.Base.Bytes.{Bytes, Text}
use sechat_client.Base.Strings.{trim}
use sechat_client.Client.Local.{
  find_contact, alias_is, alias_starts, fingerprint_starts, resolve_query,
}
use sechat_client.Client.State.{post}
use sechat_client.Client.Types.{Contact}

-- The position of a contact in the list.
module _ (test : Contact → Bool) where
  -- A search finds a contact that passes the test, behind contacts that do not; it finds none only
  -- where none passes.
  pub find_contact-splits :
      (cs : List Contact) (c : Contact)
      → find_contact test cs ≡ some c
      → (before : List Contact) × (after : List Contact) × (cs ≡ before ++ c ∷ after)
        × (test c ≡ true)
        × (find_contact test before ≡ none)
  unfolding find_contact
  find_contact-splits [] c h = absurd (ground arith)
  find_contact-splits (d ∷ cs) c h = elim (Bool-cases (test d)) [
    | inl hit ↦ ([], cs, ground arith, ground arith, refl)
    | inr miss ↦
        let (pre, post, e, t, misses) = find_contact-splits cs c (ground arith) in
        (d ∷ pre, post, ap (λ l. d ∷ l) e, t, ground arith)
  ]

-- The rule by which a query found a contact.
abbrev pub Matches : Text → Contact → Type 0
Matches q c = (alias_is q c ≡ true) ⊎ (alias_starts q c ≡ true) ⊎ (fingerprint_starts q c ≡ true)

-- Whatever a query resolves to is the identity of a listed contact whose alias is the trimmed query,
-- or whose alias or fingerprint starts with it, and a contact with exactly that alias goes first:
-- if the contact found has another alias, no listed contact has it.
pub resolve_query_sound :
    (contacts : List Contact) (query : Text) (id : Bytes)
    → resolve_query contacts query ≡ some id
    → (before : List Contact) × (c : Contact) × (after : List Contact) × (contacts
        ≡ before ++ c ∷ after)
      × (c.id ≡ id)
      × Matches (trim query) c
      × ((alias_is (trim query) c ≡ true) ⊎ (find_contact (alias_is (trim query)) contacts ≡ none))
unfolding resolve_query
resolve_query_sound contacts query id h =
    let q = trim query in
    elim (Option-cases (find_contact (alias_is q) contacts)) [
      | inr (c, e) ↦
          let (pre, post, split, t, misses) = find_contact-splits (alias_is q) contacts c e in
          (pre, c, post, split, ground arith, inl t, inl t)
      | inl none_is ↦ elim (Option-cases (find_contact (alias_starts q) contacts)) [
        | inr (c, e) ↦
            let (pre, post, split, t, misses) = find_contact-splits (alias_starts q) contacts c e in
            (pre, c, post, split, ground arith, inr (inl t), inr none_is)
        | inl none_starts ↦ elim (Option-cases (find_contact (fingerprint_starts q) contacts)) [
          | inr (c, e) ↦
              let (pre, post, split, t, misses) =
                find_contact-splits (fingerprint_starts q) contacts c e in
              (pre, c, post, split, ground arith, inr (inr t), inr none_is)
          | inl none_left ↦ absurd (ground arith)
        ]
      ]
    ]
