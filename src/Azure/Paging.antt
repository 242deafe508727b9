-- ===== src/Azure/Paging.antt =====
-- internal/hub/azure/client.go, GetAll: a list that is given is the whole of its pages.
use serversmonitor.Prelude.{
  ℕ, zero, suc, ◌≤◌, ◌≡◌, ◌≢◌, ◌↔◌, refl, sym, subst, false, List, [], ◌++◌, String, text_eq,
  String_discrete, arith,
}
use serversmonitor.Azure.Client.{
  Page, Fetched, page, fetch_failed, not_a_page, Listed, listed, list_failed, list_unreadable,
  too_many_pages, behind, pages_from, get_all, max_pages,
}

module _ {V : Type 0} (fetch : String → Fetched V) where
  -- The chain of the n pages that start at a link, and what they hold together.
  pub data Chain : String → ℕ → List V → Type 0 where
    last : Chain "" 0 []
    linked :
        {n : ℕ} {vs : List V} (link : String) (p : Page V)
        → link ≢ ""
        → fetch link ≡ page p
        → Chain p.next_link n vs
        → Chain link (suc n) (p.value ++ vs)

  Chain-pages_from :
      {link : String} {n : ℕ} {vs : List V} (left : ℕ)
      → Chain link n vs
      → n ≤ left
      → pages_from fetch left link ≡ listed vs
  unfolding pages_from String_discrete
  Chain-pages_from zero last h = refl
  Chain-pages_from (suc left) last h = refl
  Chain-pages_from zero (linked link p ne e c) h = absurd (omega (arith, h))
  Chain-pages_from (suc left) (linked link p ne e c) h =
      ground (arith, ne, e, Chain-pages_from {link = p.next_link} left c (omega (arith, h)))

  behind-listed :
      (us vs : List V) (l : Listed V)
      → behind us l ≡ listed vs
      → (ws : List V) × (l ≡ listed ws) × (us ++ ws ≡ vs)
  behind-listed us vs (listed ws) h = (ws, refl, cc h)
  behind-listed us vs list_failed h = absurd (cc h)
  behind-listed us vs list_unreadable h = absurd (cc h)
  behind-listed us vs too_many_pages h = absurd (cc h)

  -- What a list of at most `left` pages from a link comes from.
  abbrev Reads : ℕ → String → List V → Type 0
  Reads left link vs = (n : ℕ) × Chain link n vs × (n ≤ left)

  no_pages :
      (left : ℕ) (link : String) (vs : List V)
      → link ≡ ""
      → listed [] ≡ listed vs
      → Reads left link vs
  no_pages left link vs e h =
      (0, subst (λ l. Chain l 0 vs) (sym e) (subst (Chain "" 0) (cc h) last), omega arith)

  one_page :
      (left : ℕ) (link : String) (vs : List V) (f : Fetched V)
      → link ≢ ""
      → text_eq link "" ≡ false
      → fetch link ≡ f
      → pages_from fetch (suc left) link ≡ listed vs
      → ((l : String) (ws : List V) → pages_from fetch left l ≡ listed ws → Reads left l ws)
      → Reads (suc left) link vs
  unfolding pages_from
  one_page left link vs fetch_failed ne t e h ih = absurd (cc (rw (pages_from, t, e) at h))
  one_page left link vs not_a_page ne t e h ih = absurd (cc (rw (pages_from, t, e) at h))
  one_page left link vs (page p) ne t e h ih =
      let parts =
        behind-listed p.value vs (pages_from fetch left p.next_link) (rw (pages_from, t, e) at h) in
      let rest = ih p.next_link parts.0 parts.1 in
      (
        suc rest.0,
        subst (Chain link (suc rest.0)) parts.2 (linked link p ne e rest.1),
        omega (arith, rest.2),
      )

  pages_from-Chain :
      (left : ℕ) (link : String) (vs : List V)
      → pages_from fetch left link ≡ listed vs
      → Reads left link vs
  unfolding pages_from String_discrete
  pages_from-Chain zero link vs h = elim (String_discrete link "") [
    | yes e ↦ no_pages 0 link vs e (ground (arith, e, h))
    | no ne ↦ absurd (ground (arith, ne, h))
  ]
  pages_from-Chain (suc left) link vs h = elim (String_discrete link "") [
    | yes e ↦ no_pages (suc left) link vs e (ground (arith, e, h))
    | no ne ↦
        one_page left link vs (fetch link) ne (ground (arith, ne)) refl h (pages_from-Chain left)
  ]

  -- A list is given exactly when a chain of at most 200 pages starts at the address, and then it is
  -- what those pages hold: a page that cannot be read never makes it shorter.
  pub get_all_lem :
      (url : String) (vs : List V)
      → (get_all fetch url ≡ listed vs) ↔ ((n : ℕ) × Chain url n vs × (n ≤ max_pages))
  unfolding get_all
  get_all_lem url vs = (pages_from-Chain max_pages url vs, λ c. Chain-pages_from max_pages c.1 c.2)
