-- ===== src/Pfexec/Daemon/Decision.antt =====
-- Which requests the daemon grants, and what it answers to the others.
use cprogramming.Prelude.{
  ◌≡◌, refl, ap, sym, subst, ◌⊎◌, inl, inr, Bool, true, false, not, Option, none, some, List, [],
  ◌∷◌, ◌++◌, if◌then◌else◌, pos, negsuc, Bool-cases, Option-cases,
}
use cprogramming.Pfexec.Packet.{Limits, Req, Resp, eperm, einval, pfexecve_noprompt}
use cprogramming.Pfexec.Daemon.{
  Rule, Users, deny, nopass, nolog, match, malformed, last_match, has, prompt_password,
}
use cprogramming.Pfexec.Daemon.Response.{
  craft_response, processed, permit, by_rule, process_request, zero_resp, sent, answer_client,
}

abbrev pub NoneMatches : Users → Req → List Rule → Type 0
NoneMatches u req [] = Unit {0}
NoneMatches u req (r ∷ rules) = (match u req r ≡ false) × NoneMatches u req rules

-- `r` matches, and no rule behind it does.
pub record IsLast (u : Users) (req : Req) (rules : List Rule) (r : Rule) : Type 0 where
  pub before : List Rule
  pub after : List Rule
  pub rules_are : rules ≡ before ++ (r ∷ after)
  pub matches : match u req r ≡ true
  pub none_after : NoneMatches u req after

-- What the loop over the rules finds, where `lastr` is the last one before them.
abbrev Found : Users → Req → Option Rule → List Rule → Option Rule → Type 0
Found u req lastr rules none = (lastr ≡ none) × NoneMatches u req rules
Found u req lastr rules (some r) =
    ((lastr ≡ some r) × NoneMatches u req rules) ⊎ IsLast u req rules r

IsLast-cons :
    (u : Users) (req : Req) (s : Rule) (rules : List Rule) (r : Rule)
    → IsLast u req rules r
    → IsLast u req (s ∷ rules) r
IsLast-cons u req s rules r l = record {
  before = s ∷ l.before;
  after = l.after;
  rules_are = ap (λ t. s ∷ t) l.rules_are;
  matches = l.matches;
  none_after = l.none_after;
}

some_inj : {r s : Rule} → some r ≡ some s → r ≡ s
some_inj e = cc

Found-miss :
    (u : Users) (req : Req) (lastr : Option Rule) (s : Rule) (rules : List Rule) (o : Option Rule)
    → match u req s ≡ false
    → Found u req lastr rules o
    → Found u req lastr (s ∷ rules) o
Found-miss u req lastr s rules none m f = (f.0, (m, f.1))
Found-miss u req lastr s rules (some r) m (inl f) = inl (f.0, (m, f.1))
Found-miss u req lastr s rules (some r) m (inr l) = inr (IsLast-cons u req s rules r l)

Found-hit :
    (u : Users) (req : Req) (lastr : Option Rule) (s : Rule) (rules : List Rule) (o : Option Rule)
    → match u req s ≡ true
    → Found u req (some s) rules o
    → Found u req lastr (s ∷ rules) o
Found-hit u req lastr s rules none m f = absurd (cc (f.0))
Found-hit u req lastr s rules (some r) m (inr l) = inr (IsLast-cons u req s rules r l)
Found-hit u req lastr s rules (some r) m (inl f) = inr (record {
  before = [];
  after = rules;
  rules_are = ap (λ k. k ∷ rules) (some_inj f.0);
  matches = subst (λ k. match u req k ≡ true) (some_inj f.0) m;
  none_after = f.1;
})

last_match-Found :
    (u : Users) (req : Req) (rules : List Rule) (lastr : Option Rule)
    → Found u req lastr rules (last_match u req lastr rules)
unfolding last_match
last_match-Found u req [] none = (refl, tt)
last_match-Found u req [] (some r) = inl (refl, tt)
last_match-Found u req (s ∷ rules) lastr = elim (Bool-cases (match u req s)) [
  | inr miss ↦
      rw (miss, last_match)
        (Found-miss u req lastr s rules _ miss (last_match-Found u req rules lastr))
  | inl hit ↦
      rw (hit, last_match)
        (Found-hit u req lastr s rules _ hit (last_match-Found u req rules (some s)))
]

-- A rule that grants: the last that matches, it does not deny, and it asks for no password.
pub record IsGrant (u : Users) (req : Req) (rules : List Rule) (r : Rule) : Type 0 where
  pub last : IsLast u req rules r
  pub permits : has r.action deny ≡ false
  pub no_password : has r.options nopass ≡ true

-- Why a request is refused.
abbrev pub Refusal : Users → Req → List Rule → Type 0
Refusal u req rules =
    NoneMatches u req rules
    ⊎ ((r : Rule) × IsLast u req rules r
        × ((has r.action deny ≡ true) ⊎ (has r.options nopass ≡ false)))

-- The answers there may be.
abbrev pub Answer : Limits → Users → List Rule → Req → Option (Resp × Bool) → Type 0
Answer l u rules req none =
    (r : Rule) × IsGrant u req rules r × (craft_response l u req r (zero_resp l) ≡ none)
Answer l u rules req (some (resp, logged)) =
    (malformed l req ≡ true) × (resp.pfr_errno ≡ einval)
    ⊎ (malformed l req ≡ false) × Refusal u req rules × (resp.pfr_errno ≡ eperm)
    ⊎ ((r : Rule) × (crafted : Resp) × (malformed l req ≡ false)
        × IsGrant u req rules r
        × (craft_response l u req r (zero_resp l) ≡ some crafted)
        × (resp ≡ record crafted { pfr_errno = 0 })
        × (logged ≡ not (has r.options nolog)))

module _ (l : Limits) (u : Users) (rules : List Rule) (req : Req)
    (fine : malformed l req ≡ false) where
  permit-Answer :
      (r : Rule)
      → IsLast u req rules r
      → has r.action deny ≡ false
      → Answer l u rules req (sent l (permit l u req r (zero_resp l)))
  unfolding permit prompt_password
  permit-Answer r last p = elim (Bool-cases (has req.pfr_req_flags pfexecve_noprompt)) [
    | inl quiet ↦ elim (Bool-cases (has r.options nopass)) [
      | inr password ↦ rw (quiet, password) (inr (inl (fine, inr (r, last, inr password), refl)))
      | inl no_password ↦ elim (Option-cases (craft_response l u req r (zero_resp l))) [
        | inl e ↦ rw (quiet, no_password, e) (r, grant no_password, e)
        | inr (c, e) ↦ rw (quiet, no_password, e) (granted c e no_password)
      ]
    ]
    | inr asks ↦ elim (Bool-cases (has r.options nopass)) [
      | inr password ↦ rw (asks, password) (inr (inl (fine, inr (r, last, inr password), refl)))
      | inl no_password ↦ elim (Option-cases (craft_response l u req r (zero_resp l))) [
        | inl e ↦ rw (asks, no_password, e) (r, grant no_password, e)
        | inr (c, e) ↦ rw (asks, no_password, e) (granted c e no_password)
      ]
    ]
  ]
    where
      grant : has r.options nopass ≡ true → IsGrant u req rules r
      grant h = record { last = last; permits = p; no_password = h }

      granted :
          (c : Resp)
          → craft_response l u req r (zero_resp l) ≡ some c
          → has r.options nopass ≡ true
          → Answer l u rules req (
              sent l (
                processed
                  (if has r.options nolog then negsuc 0 else pos 0)
                  (record c { pfr_errno = 0 })))
      granted c e h = elim (Bool-cases (has r.options nolog)) [
        | inl quiet ↦ rw quiet (inr (inr (r, c, fine, grant h, e, refl, sym (ap not quiet))))
        | inr loud ↦ rw loud (inr (inr (r, c, fine, grant h, e, refl, sym (ap not loud))))
      ]

  by_rule-Answer :
      (o : Option Rule)
      → Found u req none rules o
      → Answer l u rules req (sent l (by_rule l u req o (zero_resp l)))
  unfolding by_rule
  by_rule-Answer none f = inr (inl (fine, inl f.1, refl))
  by_rule-Answer (some r) (inl f) = absurd (cc (f.0))
  by_rule-Answer (some r) (inr last) = elim (Bool-cases (has r.action deny)) [
    | inl denied ↦ rw denied (inr (inl (fine, inr (r, last, inl denied), refl)))
    | inr permitted ↦ rw permitted (permit-Answer r last permitted)
  ]

-- The daemon answers EINVAL to a malformed request. To any other it answers EPERM if no rule matches,
-- or the last that does denies or asks for a password. Else it answers with what craft_response makes
-- for that rule and the errno 0, and logs unless the rule says not to; where craft_response finds no
-- entry for the target, and only there, the daemon ends.
pub answer_client_lem :
    (l : Limits) (u : Users) (rules : List Rule) (req : Req)
    → Answer l u rules req (answer_client l u rules req)
unfolding answer_client process_request
answer_client_lem l u rules req = elim (Bool-cases (malformed l req)) [
  | inl bad ↦ rw bad (inl (bad, refl))
  | inr fine ↦ rw fine (by_rule-Answer l u rules req fine _ (last_match-Found u req rules none))
]
