-- ===== src/Server/Acl.antt =====
-- src/server.c: the address check of `ev_handler` on MG_EV_ACCEPT.
use professor_ai.Prelude.{
  ◌≡◌, ◌≢◌, refl, sym, ap, ap₂, ◌∙◌, ◌∷◌, ◌++◌, ◌⊎◌, inl, inr, ◌↔◌, Bool, true, false, List, [],
  if◌then◌else◌, ltb, length, drop, arith, Bool-cases,
}
use mathlib.Core.Path.{subst}
use professor_ai.Prelude.Bytes.{Bytes, codes, streq, streq_sound, streq_refl, has_prefix}

-- The prefix of an IPv4 address that is mapped into IPv6 is skipped.
unfoldable pub norm_ip : Bytes → Bytes
norm_ip ip = if has_prefix (codes "::ffff:") ip then drop 7 ip else ip

-- The loop over the list, left at the first match.
unfoldable pub listed : List Bytes → Bytes → Bool
listed [] ip = false
listed (entry ∷ acl) ip = if streq (norm_ip ip) (norm_ip entry) then true else listed acl ip

-- An empty list allows every address.
unfoldable pub allows : List Bytes → Bytes → Bool
allows acl ip = if ltb 0 (length acl) then listed acl ip else true

-- What an address is without the prefix of mapped addresses.
abbrev pub IsBare : Bytes → Bytes → Type 0
IsBare ip bare =
    (ip ≡ codes "::ffff:" ++ bare) ⊎ (ip ≡ bare) × ((rest : Bytes) → ip ≢ codes "::ffff:" ++ rest)

-- Both are the same address, where the prefix counts on neither side.
abbrev pub SameAddress : Bytes → Bytes → Type 0
SameAddress ip entry = (bare : Bytes) × IsBare ip bare × IsBare entry bare

-- Some entry is the address.
abbrev pub HasEntry : List Bytes → Bytes → Type 0
HasEntry [] ip = ⊥
HasEntry (entry ∷ acl) ip = SameAddress ip entry ⊎ HasEntry acl ip

has_prefix_sound : (p s : Bytes) → has_prefix p s ≡ true → s ≡ p ++ drop (length p) s
unfolding has_prefix
has_prefix_sound [] s h = refl
has_prefix_sound (k ∷ ks) [] h = cc
has_prefix_sound (k ∷ ks) (c ∷ s) h =
    let (here, rest) : (k ≡ c) × (has_prefix ks s ≡ true) = ground arith in
    ap₂ ◌∷◌ (sym here) (has_prefix_sound ks s rest)

has_prefix-append : (p s : Bytes) → has_prefix p (p ++ s) ≡ true
unfolding has_prefix
has_prefix-append [] s = refl
has_prefix-append (k ∷ ks) s = ground (arith, has_prefix-append ks s)

norm_ip-IsBare : (ip : Bytes) → IsBare ip (norm_ip ip)
unfolding norm_ip
norm_ip-IsBare ip = elim (Bool-cases (has_prefix (codes "::ffff:") ip)) [
  | inl h ↦ rw h (inl (has_prefix_sound (codes "::ffff:") ip h))
  | inr h ↦ rw h (
      inr (
        refl,
        λ rest e.
            let hit = has_prefix-append (codes "::ffff:") rest in
            let miss : has_prefix (codes "::ffff:") (codes "::ffff:" ++ rest) ≡ false =
              ap (has_prefix (codes "::ffff:")) (sym e) ∙ h in
            cc,
      ))
]

bare_unique : (ip a b : Bytes) → IsBare ip a → IsBare ip b → a ≡ b
bare_unique ip a b (inl e) (inl e') = ap (drop 7) (sym e ∙ e')
bare_unique ip a b (inl e) (inr (e', none_is)) = absurd (none_is a e)
bare_unique ip a b (inr (e, none_is)) (inl e') = absurd (none_is b e')
bare_unique ip a b (inr (e, _)) (inr (e', _)) = sym e ∙ e'

SameAddress-norm_ip : (ip entry : Bytes) → SameAddress ip entry → norm_ip ip ≡ norm_ip entry
SameAddress-norm_ip ip entry (bare, left, right) =
    bare_unique ip (norm_ip ip) bare (norm_ip-IsBare ip) left
    ∙ bare_unique entry bare (norm_ip entry) right (norm_ip-IsBare entry)

listed-HasEntry : (acl : List Bytes) (ip : Bytes) → listed acl ip ≡ true → HasEntry acl ip
unfolding listed
listed-HasEntry [] ip h = cc
listed-HasEntry (entry ∷ acl) ip h = elim (Bool-cases (streq (norm_ip ip) (norm_ip entry))) [
  | inl e ↦
      let same = streq_sound (norm_ip ip) (norm_ip entry) e in
      inl (norm_ip ip, norm_ip-IsBare ip, subst (IsBare entry) (sym same) (norm_ip-IsBare entry))
  | inr e ↦ inr (listed-HasEntry acl ip (rw e at h))
]

HasEntry-listed : (acl : List Bytes) (ip : Bytes) → HasEntry acl ip → listed acl ip ≡ true
unfolding listed
HasEntry-listed [] ip h = absurd h
HasEntry-listed (entry ∷ acl) ip (inl e) =
    let same = SameAddress-norm_ip ip entry e in
    let hit : streq (norm_ip ip) (norm_ip entry) ≡ true = rw same (streq_refl (norm_ip entry)) in
    rw hit
HasEntry-listed (entry ∷ acl) ip (inr later) =
    let rest = HasEntry-listed acl ip later in ground (arith, rest)

allows-cons :
    (entry : Bytes) (acl : List Bytes) (ip : Bytes)
    → allows (entry ∷ acl) ip ≡ listed (entry ∷ acl) ip
unfolding allows
allows-cons entry acl ip = ground arith

-- An address is allowed exactly when the list is empty or has the address, where the prefix
-- "::ffff:" of mapped addresses counts on neither side.
pub allows_iff :
    (acl : List Bytes) (ip : Bytes) → (allows acl ip ≡ true) ↔ ((acl ≡ []) ⊎ HasEntry acl ip)
unfolding allows
allows_iff [] ip = ((λ e. inl refl), (λ e. refl))
allows_iff (entry ∷ acl) ip = (
  (λ e. inr (listed-HasEntry (entry ∷ acl) ip (sym (allows-cons entry acl ip) ∙ e))),
  (λ e. elim e [
    | inl a ↦ cc
    | inr a ↦ allows-cons entry acl ip ∙ HasEntry-listed (entry ∷ acl) ip a
  ]),
)
