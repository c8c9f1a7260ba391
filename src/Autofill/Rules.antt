-- ===== src/Autofill/Rules.antt =====
-- The rules of url-match.ts for a fill, without the code's helpers.
use Prim.Native.String
use nopass.Prelude.{
  ◌≡◌, refl, sym, ap, ◌∙◌, ◌↔◌, ◌⊎◌, inl, inr, ◌≢◌, String, true, some, eq_iff, arith,
}
use nopass.Autofill.{Url, Web, is_loopback, default_port, port_or_default, origin_matches}
use nopass.Autofill.Laws.{PageScheme, Fills, compared, origin_matches-Fills}

-- A scheme that may be filled.
abbrev IsWeb : String → Type 0
IsWeb scheme = (scheme ≡ "https:") ⊎ (scheme ≡ "http:")

-- The port that a scheme stands for.
abbrev pub Standard : String → String → Type 0
Standard scheme port = ((scheme ≡ "https:") × (port ≡ "443")) ⊎ ((scheme ≡ "http:") × (port ≡ "80"))

-- The effective port of an address: its own, or that of its scheme.
abbrev pub Effective : Url → String → Type 0
Effective url port =
    ((url.port ≢ "") × (port ≡ url.port)) ⊎ ((url.port ≡ "") × Standard url.protocol port)

module _ (web : Web) where
  -- A host that is this machine.
  abbrev pub Local : String → Type 0
  Local host =
      (host ≡ "localhost")
      ⊎ ((host ≡ "127.0.0.1") ⊎ ((host ≡ "[::1]") ⊎ (web.ends_with host ".localhost" ≡ true)))

  -- A page is https, or it is http and the item was saved for http or the page is on this machine; the
  -- effective ports agree, or, where the schemes differ, the page has the port of its scheme; the host
  -- is the item's, or below it where the item's is a registrable domain.
  pub record Rules (item page : Url) : Type 0 where
    pub item_host : item.hostname ≢ ""
    pub page_host : page.hostname ≢ ""
    pub item_scheme : IsWeb item.protocol
    pub page_scheme :
        (page.protocol ≡ "https:")
        ⊎ ((page.protocol ≡ "http:") × ((item.protocol ≡ "http:") ⊎ Local page.hostname))
    pub port : String
    pub page_port : Effective page port
    pub item_port :
        ((item.protocol ≡ page.protocol) × Effective item port)
        ⊎ ((item.protocol ≢ page.protocol) × Standard page.protocol port)
    pub host :
        (item.hostname ≡ page.hostname)
        ⊎ ((web.ends_with page.hostname (String.◌++◌ "." item.hostname) ≡ true)
            × (web.registrable_domain item.hostname ≡ some item.hostname))

  is_loopback_iff : (host : String) → (is_loopback web host ≡ true) ↔ Local host
  unfolding is_loopback
  is_loopback_iff host = (
    λ h. elim (compared host "localhost") [
      | inl (t, e) ↦ inl e
      | inr (f, n) ↦ elim (compared host "127.0.0.1") [
        | inl (t, e) ↦ inr (inl e)
        | inr (g, m) ↦ elim (compared host "[::1]") [
          | inl (t, e) ↦ inr (inr (inl e))
          | inr (k, l) ↦ inr (inr (inr (ground arith)))
        ]
      ]
    ],
    λ l. elim l [
      | inl e ↦ let t = (eq_iff _ _).1 e in ground arith
      | inr (inl e) ↦ let t = (eq_iff _ _).1 e in ground arith
      | inr (inr (inl e)) ↦ let t = (eq_iff _ _).1 e in ground arith
      | inr (inr (inr e)) ↦ ground arith
    ],
  )

  default_port_iff :
      (scheme port : String)
      → IsWeb scheme
      → Standard scheme port ↔ (port ≡ default_port web scheme)
  unfolding default_port
  default_port_iff scheme port is_web = elim (compared scheme "https:") [
    | inl (t, e) ↦ (
      λ s. elim s [ inl (a, p) ↦ rw t p | inr (a, p) ↦ absurd (cc (e, a)) ],
      λ p. inl (e, rw t at p),
    )
    | inr (f, n) ↦ (
      λ s. elim s [ inl (a, p) ↦ absurd (n a) | inr (a, p) ↦ rw f p ],
      λ p. elim is_web [ inl a ↦ absurd (n a) | inr a ↦ inr (a, rw f at p) ],
    )
  ]

  port_or_default-Effective :
      (url : Url) (port : String)
      → IsWeb url.protocol
      → Effective url port ↔ (port ≡ port_or_default web url.port url.protocol)
  port_or_default-Effective url port is_web =
      let d = default_port_iff url.protocol port is_web in
      elim (compared url.port "") [
        | inl (t, e) ↦ (
          λ s. elim s [ inl (n, p) ↦ absurd (n e) | inr (a, p) ↦ rw t (d.0 p) ],
          λ p. inr (e, d.1 (rw t at p)),
        )
        | inr (f, n) ↦ (
          λ s. elim s [ inl (m, p) ↦ rw f p | inr (a, p) ↦ absurd (n a) ],
          λ p. inl (n, rw f at p),
        )
      ]

  page-IsWeb : (item page : Url) → PageScheme web item page → IsWeb page.protocol
  page-IsWeb item page (inl https) = inl https
  page-IsWeb item page (inr (http, why)) = inr http

  Fills-Rules : (item page : Url) → Fills web item page → Rules item page
  Fills-Rules item page f =
      let is_web = page-IsWeb item page f.page_scheme in
      record {
        item_host = f.item_host;
        page_host = f.page_host;
        item_scheme = f.item_scheme;
        page_scheme = elim f.page_scheme [
          | inl https ↦ inl https
          | inr (http, inl plain) ↦ inr (http, inl plain)
          | inr (http, inr here) ↦ inr (http, inr ((is_loopback_iff page.hostname).0 here))
        ];
        port = port_or_default web page.port page.protocol;
        page_port = (port_or_default-Effective page _ is_web).1 refl;
        item_port = elim f.port [
          | inl (same, e) ↦ inl (
            same,
            (port_or_default-Effective item _ f.item_scheme).1
                (sym e ∙ ap (port_or_default web item.port) (sym same)),
          )
          | inr (differ, e) ↦ inr (differ, (default_port_iff page.protocol _ is_web).1 (sym e))
        ];
        host = f.host;
      }

  Rules-Fills : (item page : Url) → Rules item page → Fills web item page
  Rules-Fills item page r =
      let scheme : PageScheme web item page = elim r.page_scheme [
        | inl https ↦ inl https
        | inr (http, inl plain) ↦ inr (http, inl plain)
        | inr (http, inr here) ↦ inr (http, inr ((is_loopback_iff page.hostname).1 here))
      ] in
      let is_web = page-IsWeb item page scheme in
      let at_page = (port_or_default-Effective page r.port is_web).0 r.page_port in
      record {
        item_host = r.item_host;
        page_host = r.page_host;
        item_scheme = r.item_scheme;
        page_scheme = scheme;
        port = elim r.item_port [
          | inl (same, e) ↦ inl (
            same,
            ap (port_or_default web item.port) (sym same)
                ∙ sym ((port_or_default-Effective item r.port r.item_scheme).0 e)
                ∙ at_page,
          )
          | inr (differ, e) ↦
              inr (differ, sym ((default_port_iff page.protocol r.port is_web).0 e) ∙ at_page)
        ];
        host = r.host;
      }

  -- A saved address is filled into a page exactly when both are URLs and the rules on schemes, ports
  -- and hosts allow it: an https page, or an http page for an item saved for http or on this machine;
  -- the same effective port, 443 for https and 80 for http, or, where the schemes differ, the page on
  -- the port of its scheme, whatever the item's; the same host, or one below a registrable domain.
  pub origin_matches_iff :
      (saved page_origin : String)
      → (origin_matches web saved page_origin ≡ true) ↔ (
          (item : Url) × (page : Url) × (web.parse_url saved ≡ some item)
          × (web.parse_url page_origin ≡ some page)
          × Rules item page)
  origin_matches_iff saved page_origin =
      let f = origin_matches-Fills web saved page_origin in
      (
        λ h. let (item, page, a, b, g) = f.0 h in (item, page, a, b, Fills-Rules item page g),
        λ (item, page, a, b, r). f.1 (item, page, a, b, Rules-Fills item page r),
      )
