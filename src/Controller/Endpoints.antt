-- ===== src/Controller/Endpoints.antt =====
-- The endpoints that are left and that are added in an update.
use samaritan.Prelude.{
  ◌≡◌, sym, subst, ◌∙◌, inl, inr, Bool, true, not, ◌&&◌, ◌||◌, Bool-cases, List, [], ◌∷◌, Bytes,
  bytes_equal, bytes_equal_refl, bytes_equal→eq, All, All-append, All-weaken, arith,
}
use samaritan.Config.Defs.{Endpoint, contains, drop_one, put_one, drop_all, put_all}
use samaritan.Controller.Hosts.{
  IsOfKind, all_Bare, addr_of, has, Distinct, contains-has, has-append, Distinct-last, has-cut,
  cut-Distinct, OfKind, cut-OfKind,
}

-- The endpoints left of ds after some, here noted as valid, were dropped, all of them among rs.
pub record IsLeft (kind : Bytes → Bool) (ds rs : List Endpoint) (s : List Endpoint × List Endpoint)
    : Type 0 where
  pub distinct : Distinct s.0
  pub left : (a : Bytes) → has s.0 a ≡ (has ds a && not (has s.1 a))
  pub kept : OfKind kind s.0
  pub of_kind : OfKind kind s.1
  pub among : (a : Bytes) → has s.1 a ≡ true → has rs a ≡ true

drop_one-IsLeft :
    (kind : Bytes → Bool) (ds rs : List Endpoint) (e : Endpoint) (s : List Endpoint × List Endpoint)
    → has rs (addr_of e) ≡ true
    → IsOfKind kind e
    → IsLeft kind ds rs s
    → IsLeft kind ds rs (drop_one e s)
drop_one-IsLeft kind ds rs e (es, valid) asked k v = elim (Bool-cases (contains es e)) [
  | inr absent ↦ rw absent v
  | inl here ↦ rw here (record {
    distinct = cut-Distinct es e v.distinct;
    kept = cut-OfKind kind es e v.kept;
    of_kind = All-append _ valid (e ∷ []) v.of_kind (k, tt);
    left = λ a.
        has-cut es e a (all_Bare kind es v.kept) k.1 v.distinct
          (sym (contains-has es e (all_Bare kind es v.kept) k.1) ∙ here)
        ∙ rw (has-append valid (e ∷ []) a, v.left a) (ground arith);
    among = λ a h. elim (Bool-cases (bytes_equal (addr_of e) a)) [
      | inl t ↦ subst (λ (b : Bytes). has rs b ≡ true) (bytes_equal→eq (addr_of e) a t) asked
      | inr f ↦ v.among a (ground (arith, h, f, has-append valid (e ∷ []) a))
    ];
  })
]

-- The endpoints ds with some more, noted as valid, all of them among as.
pub record IsGrown (kind : Bytes → Bool) (ds news : List Endpoint)
    (s : List Endpoint × List Endpoint) : Type 0 where
  pub distinct : Distinct s.0
  pub grown : (a : Bytes) → has s.0 a ≡ (has ds a || has s.1 a)
  pub kept : OfKind kind s.0
  pub of_kind : OfKind kind s.1
  pub among : (a : Bytes) → has s.1 a ≡ true → has news a ≡ true

put_one-IsGrown :
    (kind : Bytes → Bool) (ds news : List Endpoint) (e : Endpoint)
    (s : List Endpoint × List Endpoint)
    → has news (addr_of e) ≡ true
    → IsOfKind kind e
    → IsGrown kind ds news s
    → IsGrown kind ds news (put_one e s)
put_one-IsGrown kind ds news e (es, valid) asked k v = elim (Bool-cases (contains es e)) [
  | inl here ↦ rw here v
  | inr absent ↦ rw absent (record {
    distinct =
        Distinct-last es e v.distinct
          (sym (contains-has es e (all_Bare kind es v.kept) k.1) ∙ absent);
    kept = All-append _ es (e ∷ []) v.kept (k, tt);
    of_kind = All-append _ valid (e ∷ []) v.of_kind (k, tt);
    grown =
        λ a. has-append es (e ∷ []) a ∙ rw (has-append valid (e ∷ []) a, v.grown a) (ground arith);
    among = λ a h. elim (Bool-cases (bytes_equal (addr_of e) a)) [
      | inl t ↦ subst (λ (b : Bytes). has news b ≡ true) (bytes_equal→eq (addr_of e) a t) asked
      | inr f ↦ v.among a (ground (arith, h, f, has-append valid (e ∷ []) a))
    ];
  })
]

-- The endpoints of a part are among the whole.
abbrev Within : List Endpoint → List Endpoint → Type 0
Within whole part = All (λ e. has whole (addr_of e) ≡ true) part

Within-cons :
    (e : Endpoint) (whole part : List Endpoint) → Within whole part → Within (e ∷ whole) part
Within-cons e whole part h = All-weaken _ _ part (λ x k. ground (arith, k)) h

every_Within : (es : List Endpoint) → Within es es
every_Within [] = tt
every_Within (e ∷ es) =
    (ground (arith, bytes_equal_refl (addr_of e)), Within-cons e es es (every_Within es))

drop_all-IsLeft :
    (kind : Bytes → Bool) (ds rs es : List Endpoint) (s : List Endpoint × List Endpoint)
    → Within rs es
    → OfKind kind es
    → IsLeft kind ds rs s
    → IsLeft kind ds rs (drop_all es s)
unfolding drop_all
drop_all-IsLeft kind ds rs [] s w k v = v
drop_all-IsLeft kind ds rs (e ∷ es) s w k v =
    drop_all-IsLeft kind ds rs es (drop_one e s) w.1 k.1 (drop_one-IsLeft kind ds rs e s w.0 k.0 v)

put_all-IsGrown :
    (kind : Bytes → Bool) (ds news es : List Endpoint) (s : List Endpoint × List Endpoint)
    → Within news es
    → OfKind kind es
    → IsGrown kind ds news s
    → IsGrown kind ds news (put_all es s)
unfolding put_all
put_all-IsGrown kind ds news [] s w k v = v
put_all-IsGrown kind ds news (e ∷ es) s w k v =
    put_all-IsGrown kind ds news es (put_one e s) w.1 k.1
      (put_one-IsGrown kind ds news e s w.0 k.0 v)

pub removed-IsLeft :
    (kind : Bytes → Bool) (ds rs : List Endpoint)
    → Distinct ds
    → OfKind kind ds
    → OfKind kind rs
    → IsLeft kind ds rs (drop_all rs (ds, []))
removed-IsLeft kind ds rs d k l =
    drop_all-IsLeft kind ds rs rs (ds, []) (every_Within rs) l
      (record { distinct = d; kept = k; of_kind = tt; left = λ a. ground arith; among = λ a h. cc })

pub added-IsGrown :
    (kind : Bytes → Bool) (ds news : List Endpoint)
    → Distinct ds
    → OfKind kind ds
    → OfKind kind news
    → IsGrown kind ds news (put_all news (ds, []))
added-IsGrown kind ds news d k l =
    put_all-IsGrown kind ds news news (ds, []) (every_Within news) l
      (record {
        distinct = d;
        kept = k;
        of_kind = tt;
        grown = λ a. ground arith;
        among = λ a h. cc;
      })
