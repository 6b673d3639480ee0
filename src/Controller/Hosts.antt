-- ===== src/Controller/Hosts.antt =====
-- The addresses of endpoints, and which a list of endpoints has after an update.
use samaritan.Prelude.{
  ℕ, ◌≡◌, ◌≢◌, refl, sym, ap, ap₂, subst, ◌∙◌, inl, inr, Bool, true, false, not, ◌&&◌, ◌||◌,
  Bool-cases, some-injective, List, [], ◌∷◌, ◌++◌, Bytes, bytes, bytes_equal, bytes_equal_refl,
  bytes_equal_comm, bytes_equal→eq, All, All-weaken, arith,
}
use samaritan.Strconv.{format_uint, format_uint-IsDigit, fold_digits, fold_digits-format_uint}
use samaritan.Config.Defs.{Endpoint, same_address, contains, cut}
use samaritan.Controller.Defs.{SvcHost, host_addr, endpoints_to_hosts}

abbrev Plain : Bytes → Type 0
Plain ds = All (λ c. c ≢ b':') ds

not_Plain : (ys es : Bytes) → ¬ Plain (ys ++ b':' ∷ es)
not_Plain [] es h = h.0 refl
not_Plain (y ∷ ys) es h = not_Plain ys es h.1

split_at_colon :
    (xs ys ds es : Bytes)
    → Plain ds
    → Plain es
    → xs ++ b':' ∷ ds ≡ ys ++ b':' ∷ es
    → (xs ≡ ys) × (ds ≡ es)
split_at_colon [] [] ds es p q h = (refl, cc)
split_at_colon [] (y ∷ ys) ds es p q h =
    let e : ds ≡ ys ++ b':' ∷ es = cc in absurd (not_Plain ys es (subst Plain e p))
split_at_colon (x ∷ xs) [] ds es p q h =
    let e : es ≡ xs ++ b':' ∷ ds = cc in absurd (not_Plain xs ds (subst Plain e q))
split_at_colon (x ∷ xs) (y ∷ ys) ds es p q h =
    let head : x ≡ y = cc in
    let rest : xs ++ b':' ∷ ds ≡ ys ++ b':' ∷ es = cc in
    let (a, b) = split_at_colon xs ys ds es p q rest in (ap₂ ◌∷◌ head a, b)

format_uint-Plain : (n : ℕ) → Plain (format_uint n)
format_uint-Plain n = All-weaken _ _ (format_uint n) (λ c h. ground arith) (format_uint-IsDigit n)

format_uint_injective : (m n : ℕ) → format_uint m ≡ format_uint n → m ≡ n
format_uint_injective m n h =
    some-injective m n
      (sym (fold_digits-format_uint m) ∙ ap (fold_digits 0) h ∙ fold_digits-format_uint n)

abbrev pub addr_of : Endpoint → Bytes
addr_of e = host_addr e.address

-- An endpoint whose address has no unrecognized fields.
abbrev pub Bare : Endpoint → Type 0
Bare e = e.address.unrecognized ≡ []

-- Two such endpoints have the same address if their hosts are known by the same text.
same_address_lem :
    (d e : Endpoint) → Bare d → Bare e → same_address d e ≡ bytes_equal (addr_of d) (addr_of e)
same_address_lem d e bd be = elim (Bool-cases (bytes_equal (addr_of d) (addr_of e))) [
  | inl same ↦
      let (i, p) =
        split_at_colon d.address.ip e.address.ip _ _ (format_uint-Plain d.address.port)
          (format_uint-Plain e.address.port) (bytes_equal→eq (addr_of d) (addr_of e) same) in
      let q = format_uint_injective d.address.port e.address.port p in
      rw (same, i, q, bd, be, bytes_equal_refl e.address.ip) (ground (arith, bytes_equal_refl []))
  | inr apart ↦ elim (Bool-cases (same_address d e)) [
    | inr other ↦ other ∙ sym apart
    | inl same ↦
        let i = bytes_equal→eq d.address.ip e.address.ip (ground arith) in
        let q : d.address.port ≡ e.address.port = ground arith in
        let eq : addr_of d ≡ addr_of e =
          ap₂ (λ (x : Bytes) (n : ℕ). x ++ (bytes ":" ++ format_uint n)) i q in
        cc (
          subst (λ (b : Bytes). bytes_equal (addr_of d) b ≡ true) eq (bytes_equal_refl (addr_of d)))
  ]
]

-- Whether one of the endpoints has the address.
abbrev pub has : List Endpoint → Bytes → Bool
has [] a = false
has (e ∷ es) a = bytes_equal (addr_of e) a || has es a

abbrev pub any_host : List SvcHost → Bytes → Bool
any_host [] a = false
any_host (h ∷ hs) a = bytes_equal h.addr a || any_host hs a

pub any_host-endpoints_to_hosts :
    (es : List Endpoint) (a : Bytes) → any_host (endpoints_to_hosts es) a ≡ has es a
unfolding endpoints_to_hosts
any_host-endpoints_to_hosts [] a = refl
any_host-endpoints_to_hosts (e ∷ es) a =
    ap (◌||◌ (bytes_equal (addr_of e) a)) (any_host-endpoints_to_hosts es a)

-- No two endpoints have the same address.
abbrev pub Distinct : List Endpoint → Type 0
Distinct [] = Unit
Distinct (e ∷ es) = (has es (addr_of e) ≡ false) × Distinct es

pub contains-has :
    (es : List Endpoint) (e : Endpoint) → All Bare es → Bare e → contains es e ≡ has es (addr_of e)
unfolding contains
contains-has [] e bs b = refl
contains-has (x ∷ xs) e bs b = ap₂ ◌||◌ (same_address_lem x e bs.0 b) (contains-has xs e bs.1 b)

pub has-append : (es fs : List Endpoint) (a : Bytes) → has (es ++ fs) a ≡ (has es a || has fs a)
has-append [] fs a = refl
has-append (e ∷ es) fs a = ground (arith, has-append es fs a)

pub Distinct-last :
    (es : List Endpoint) (e : Endpoint)
    → Distinct es
    → has es (addr_of e) ≡ false
    → Distinct (es ++ e ∷ [])
Distinct-last [] e d h = (refl, tt)
Distinct-last (x ∷ xs) e d h = (
  has-append xs (e ∷ []) (addr_of x)
      ∙ ground (arith, d.0, h, bytes_equal_comm (addr_of x) (addr_of e)),
  Distinct-last xs e d.1 (ground (arith, h)),
)

has-cut_absent :
    (es : List Endpoint) (e : Endpoint) (a : Bytes) → has es a ≡ false → has (cut es e) a ≡ false
unfolding cut
has-cut_absent [] e a h = refl
has-cut_absent (x ∷ xs) e a h = elim (Bool-cases (same_address x e)) [
  | inl s ↦ rw s (ground (arith, h))
  | inr n ↦ rw n (ground (arith, h, has-cut_absent xs e a))
]

pub has-cut :
    (es : List Endpoint) (e : Endpoint) (a : Bytes)
    → All Bare es
    → Bare e
    → Distinct es
    → has es (addr_of e) ≡ true
    → has (cut es e) a ≡ (has es a && not (bytes_equal (addr_of e) a))
unfolding cut
has-cut [] e a bs b d h = cc
has-cut (x ∷ xs) e a bs be d h = elim (Bool-cases (same_address x e)) [
  | inl s ↦
      let eq = bytes_equal→eq (addr_of x) (addr_of e) (sym (same_address_lem x e bs.0 be) ∙ s) in
      rw (s, ← eq)
        (elim (Bool-cases (bytes_equal (addr_of x) a)) [
          | inl t ↦
              let gone =
                subst (λ (b : Bytes). has xs b ≡ false) (bytes_equal→eq (addr_of x) a t) d.0 in
              rw (t, gone) refl
          | inr f ↦ rw f (ground arith)
        ])
  | inr n ↦
      let apart = sym (same_address_lem x e bs.0 be) ∙ n in
      let rest = has-cut xs e a bs.1 be d.1 (ground (arith, h, apart)) in
      rw (n, rest)
        (elim (Bool-cases (bytes_equal (addr_of x) a)) [
          | inr f ↦ rw f refl
          | inl t ↦
              let other =
                subst (λ (b : Bytes). bytes_equal b (addr_of e) ≡ false)
                  (bytes_equal→eq (addr_of x) a t) apart in
              rw (t, bytes_equal_comm (addr_of e) a, other) refl
        ])
]

pub cut-Distinct : (es : List Endpoint) (e : Endpoint) → Distinct es → Distinct (cut es e)
unfolding cut
cut-Distinct [] e d = tt
cut-Distinct (x ∷ xs) e d = elim (Bool-cases (same_address x e)) [
  | inl s ↦ rw s d.1
  | inr n ↦ rw n (has-cut_absent xs e (addr_of x) d.0, cut-Distinct xs e d.1)
]

-- The endpoint is a backup or not as kind tells of its address.
abbrev pub IsOfKind : (Bytes → Bool) → Endpoint → Type 0
IsOfKind kind e = (e.backup ≡ kind (addr_of e)) × Bare e

abbrev pub OfKind : (Bytes → Bool) → List Endpoint → Type 0
OfKind kind es = All (IsOfKind kind) es

pub all_Bare : (kind : Bytes → Bool) (es : List Endpoint) → OfKind kind es → All Bare es
all_Bare kind es k = All-weaken _ _ es (λ e h. h.1) k

pub cut-OfKind :
    (kind : Bytes → Bool) (es : List Endpoint) (e : Endpoint)
    → OfKind kind es
    → OfKind kind (cut es e)
unfolding cut
cut-OfKind kind [] e h = tt
cut-OfKind kind (x ∷ xs) e h = elim (Bool-cases (same_address x e)) [
  | inl s ↦ rw s h.1
  | inr n ↦ rw n (h.0, cut-OfKind kind xs e h.1)
]

abbrev pub Sound : (Bytes → Bool) → List Endpoint → Type 0
Sound kind es = Distinct es × OfKind kind es

-- The same of hosts.
abbrev pub HostsOfKind : (Bytes → Bool) → List SvcHost → Type 0
HostsOfKind kind hs = All (λ h. h.backup ≡ kind h.addr) hs

pub endpoints_to_hosts-HostsOfKind :
    (kind : Bytes → Bool) (es : List Endpoint)
    → OfKind kind es
    → HostsOfKind kind (endpoints_to_hosts es)
unfolding endpoints_to_hosts
endpoints_to_hosts-HostsOfKind kind [] k = tt
endpoints_to_hosts-HostsOfKind kind (e ∷ es) k = (k.0.0, endpoints_to_hosts-HostsOfKind kind es k.1)
