-- ===== src/Autofill/Laws.antt =====
-- When a saved address is filled into a page.
use Prim.Native.String
use nopass.Prelude.{
  ◌≡◌, ap, subst₂, ◌↔◌, ◌⊎◌, inl, inr, ◌≢◌, String, true, false, not, ◌&&◌, if◌then◌else◌, Option,
  none, some, str_eq, eq_iff, arith, Option-cases, Bool-cases,
}
use nopass.Autofill.{
  Url, Web, is_loopback, default_port, host_matches, is_domain, port_or_default, urls_match,
  origin_matches, is_fillable_origin,
}

-- A test of two texts, with what it says of them.
pub compared : (a b : String) → ((str_eq a b ≡ true) × (a ≡ b)) ⊎ ((str_eq a b ≡ false) × (a ≢ b))
compared a b = elim (Bool-cases (str_eq a b)) [
  | inl same ↦ inl (same, (eq_iff a b).0 same)
  | inr other ↦ inr (other, λ e. absurd (cc (other, (eq_iff a b).1 e)))
]

equal : (a b : String) → a ≡ b → str_eq a b ≡ true
equal a b e = (eq_iff a b).1 e

differ : (a b : String) → a ≢ b → str_eq a b ≡ false
differ a b n = elim (compared a b) [ inl (t, e) ↦ absurd (n e) | inr (f, m) ↦ f ]

module _ (web : Web) where
  -- An https page, or an http page on this machine or for an item saved for http.
  abbrev pub PageScheme : Url → Url → Type 0
  PageScheme item page =
      (page.protocol ≡ "https:")
      ⊎ ((page.protocol ≡ "http:")
          × ((item.protocol ≡ "http:") ⊎ (is_loopback web page.hostname ≡ true)))

  -- What the tests of `originMatches` say of two parsed addresses.
  pub record Fills (item page : Url) : Type 0 where
    pub item_host : item.hostname ≢ ""
    pub page_host : page.hostname ≢ ""
    pub item_scheme : (item.protocol ≡ "https:") ⊎ (item.protocol ≡ "http:")
    pub page_scheme : PageScheme item page
    pub port :
        ((item.protocol ≡ page.protocol)
          × (port_or_default web item.port page.protocol
              ≡ port_or_default web page.port page.protocol))
        ⊎ ((item.protocol ≢ page.protocol)
            × (default_port web page.protocol ≡ port_or_default web page.port page.protocol))
    pub host :
        (item.hostname ≡ page.hostname)
        ⊎ ((web.ends_with page.hostname (String.◌++◌ "." item.hostname) ≡ true)
            × (web.registrable_domain item.hostname ≡ some item.hostname))

  host_matches_iff :
      (item page : String)
      → (host_matches web item page ≡ true) ↔ (
          (item ≡ page)
          ⊎ ((web.ends_with page (String.◌++◌ "." item) ≡ true)
              × (web.registrable_domain item ≡ some item)))
  unfolding host_matches
  host_matches_iff item page = elim (compared item page) [
    | inl (t, e) ↦ (λ h. inl e, λ h. ground arith)
    | inr (f, n) ↦
        (λ h. inr (ground arith, known (web.registrable_domain item) (ground arith)), back f)
  ]
    where
      known : (o : Option String) → is_domain web o item ≡ true → o ≡ some item
      known none h = cc
      known (some d) h = ap some ((eq_iff d item).0 h)

      back :
          str_eq item page ≡ false
          → ((item ≡ page)
              ⊎ ((web.ends_with page (String.◌++◌ "." item) ≡ true)
                  × (web.registrable_domain item ≡ some item)))
          → host_matches web item page ≡ true
      back f (inl e) = absurd (cc (f, (eq_iff item page).1 e))
      back f (inr (ends, domain)) = ground (arith, domain, eq_iff item item)

  urls_match-Fills : (item page : Url) → urls_match web item page ≡ true → Fills item page
  unfolding urls_match
  urls_match-Fills item page h =
      let http = eq_iff page.protocol "http:" in
      record {
        item_host = λ e. let t = (eq_iff item.hostname "").1 e in ground arith;
        page_host = λ e. let t = (eq_iff page.hostname "").1 e in ground arith;
        item_scheme = elim (compared item.protocol "https:") [
          | inl (t, e) ↦ inl e
          | inr (f, n) ↦ inr ((eq_iff item.protocol "http:").0 (ground arith))
        ];
        page_scheme = elim (compared page.protocol "https:") [
          | inl (t, e) ↦ inl e
          | inr (f, n) ↦ inr (
            http.0 (ground arith),
            elim (compared item.protocol "http:") [
              | inl (t, e) ↦ inl e
              | inr (g, m) ↦ inr (ground arith)
            ],
          )
        ];
        port = elim (compared item.protocol page.protocol) [
          | inl (t, e) ↦ inl (e, (eq_iff _ _).0 (ground arith))
          | inr (f, n) ↦ inr (n, (eq_iff _ _).0 (ground arith))
        ];
        host = (host_matches_iff item.hostname page.hostname).0 (ground arith);
      }

  Fills-urls_match : (item page : Url) → Fills item page → urls_match web item page ≡ true
  unfolding urls_match
  Fills-urls_match item page h =
      let item_ok = differ _ _ h.item_host in
      let page_ok = differ _ _ h.page_host in
      let host_ok = (host_matches_iff item.hostname page.hostname).1 h.host in
      ground (arith, item_ok, page_ok, item_scheme, page_scheme, https_or_http, ports, host_ok)
    where
      item_scheme :
          not (str_eq item.protocol "https:") && not (str_eq item.protocol "http:") ≡ false
      item_scheme = elim h.item_scheme [
        | inl e ↦ let t = equal _ _ e in ground arith
        | inr e ↦ let t = equal _ _ e in ground arith
      ]

      https_or_http :
          not (str_eq page.protocol "http:") && not (str_eq page.protocol "https:") ≡ false
      https_or_http = elim h.page_scheme [
        | inl e ↦ let t = equal _ _ e in ground arith
        | inr (e, why) ↦ let t = equal _ _ e in ground arith
      ]

      page_scheme :
          str_eq page.protocol "http:"
            && (not (str_eq item.protocol "http:") && not (is_loopback web page.hostname))
          ≡ false
      page_scheme = elim h.page_scheme [
        | inl e ↦
            ap
              (λ p.
                str_eq p "http:"
                && (not (str_eq item.protocol "http:") && not (is_loopback web page.hostname)))
              e
        | inr (e, inl http) ↦ let t = equal _ _ http in ground arith
        | inr (e, inr local) ↦ ground arith
      ]

      ports :
          str_eq
            (if str_eq item.protocol page.protocol
              then port_or_default web item.port page.protocol
              else default_port web page.protocol)
            (port_or_default web page.port page.protocol)
          ≡ true
      ports = elim h.port [
        | inl (same, e) ↦ rw (equal _ _ same) (equal _ _ e)
        | inr (other, e) ↦ rw (differ _ _ other) (equal _ _ e)
      ]

  pub origin_matches-Fills :
      (saved page_origin : String)
      → (origin_matches web saved page_origin ≡ true) ↔ (
          (item : Url) × (page : Url) × (web.parse_url saved ≡ some item)
          × (web.parse_url page_origin ≡ some page)
          × Fills item page)
  unfolding origin_matches
  origin_matches-Fills saved page_origin = (sound, complete)
    where
      sound :
          origin_matches web saved page_origin ≡ true
          → (item : Url) × (page : Url) × (web.parse_url saved ≡ some item)
            × (web.parse_url page_origin ≡ some page)
            × Fills item page
      sound h = elim (Option-cases (web.parse_url saved)) [
        | inl bad ↦ absurd (ground arith)
        | inr (item, parsed) ↦ elim (Option-cases (web.parse_url page_origin)) [
          | inl bad ↦ absurd (ground arith)
          | inr (page, page_parsed) ↦
              (item, page, parsed, page_parsed, urls_match-Fills item page (ground arith))
        ]
      ]

      complete :
          ((item : Url) × (page : Url) × (web.parse_url saved ≡ some item)
            × (web.parse_url page_origin ≡ some page)
            × Fills item page)
          → origin_matches web saved page_origin ≡ true
      complete (item, page, parsed, page_parsed, fills) =
          rw (parsed, page_parsed, origin_matches) (Fills-urls_match item page fills)

  -- A fill into a page that is not https, nor http on this machine, is one that the user opted into:
  -- the page is http and the saved address says http.
  pub origin_matches-insecure :
      (saved page_origin : String) (item page : Url)
      → web.parse_url saved ≡ some item
      → web.parse_url page_origin ≡ some page
      → origin_matches web saved page_origin ≡ true
      → is_fillable_origin web page_origin ≡ false
      → (item.protocol ≡ "http:") × (page.protocol ≡ "http:")
  unfolding is_fillable_origin
  origin_matches-insecure saved page_origin item page parsed page_parsed h out =
      let (i, p, a, b, fills) = (origin_matches-Fills saved page_origin).0 h in
      let same : i ≡ item = cc (a, parsed) in
      let same_page : p ≡ page = cc (b, page_parsed) in
      elim (subst₂ (λ x y. PageScheme x y) same same_page fills.page_scheme) [
        | inl e ↦ let t = equal _ _ e in absurd (ground arith)
        | inr (e, inl http) ↦ (http, e)
        | inr (e, inr local) ↦ let t = equal _ _ e in absurd (ground arith)
      ]
