-- ===== src/Security/Collect/Result.antt =====
-- What `collect_findings` returns.
use git_agent.Base.{
  Text, codes, true, false, Option, some, List, [], ◌∷◌, ◌≡◌, refl, sym, ap₂, bind_some, ◌∙◌, subst,
  is_nil, map, if◌then◌else◌, put, keys, put-All, keys-put-Distinct, sorted, Ordered, sorted-All,
  sorted-Ordered, sorted-Distinct, All, Distinct, contains, nat_eq, list_eq, option_eq, pair_eq,
  ◌==◌, the_some, Bool-cases, inl, inr, arith, if_true, if_false, list_beq,
}
use git_agent.Value.{Value, Fields, field_get}
use git_agent.Message.{Message, ToolCall, ai, tool, human, system}
use git_agent.Security.Finding.{
  Finding, Host, severities, categories, normalize_severity, normalize_category, finding_from_args,
}
use git_agent.Security.Collect.{
  finding_tool, Key, key, Found, keep, add_call, add_calls, add_message, add_messages,
  at_least_as_severe, collect_findings,
}

-- The severity and the category are from the lists.
abbrev pub IsNormal : Finding → Type 0
IsNormal f = (contains f.severity severities ≡ true) × (contains f.category categories ≡ true)

listed_or :
    (s d : Text) (xs : List Text)
    → contains d xs ≡ true
    → contains (if contains s xs then s else d) xs ≡ true
listed_or s d xs h = elim (Bool-cases (contains s xs)) [
  | inl p ↦ subst (λ t. contains t xs ≡ true) (sym (if_true _ s d p)) p
  | inr q ↦ subst (λ t. contains t xs ≡ true) (sym (if_false _ s d q)) h
]

info_listed : contains (codes "info") severities ≡ true
unfolding severities codes list_beq
info_listed = refl

other_listed : contains (codes "other") categories ≡ true
unfolding categories codes list_beq
other_listed = refl

contains-normalize_severity :
    (h : Host) (v : Option Value) → contains (normalize_severity h v) severities ≡ true
unfolding normalize_severity
contains-normalize_severity h v = listed_or _ (codes "info") severities info_listed

contains-normalize_category :
    (h : Host) (v : Option Value) → contains (normalize_category h v) categories ≡ true
unfolding normalize_category
contains-normalize_category h v = listed_or _ (codes "other") categories other_listed

-- Whatever the model passes, a finding that is read has a severity and a category of the lists.
pub finding_from_args-IsNormal :
    (h : Host) (args : Fields) (f : Finding) → finding_from_args h args ≡ some f → IsNormal f
unfolding finding_from_args
finding_from_args-IsNormal h args f e = ground (
  arith,
  contains-normalize_severity h (field_get (codes "severity") args),
  contains-normalize_category h (field_get (codes "category") args),
)

-- What holds of the dictionary of the loop: each finding is normal, has a title and stands at its
-- own key, and no key stands there twice.
abbrev IsEntry : Key × Finding → Type 0
IsEntry e = (e.0 ≡ key e.1) × (is_nil e.1.title ≡ false) × IsNormal e.1

abbrev IsFound : Found → Type 0
IsFound d = All IsEntry d × Distinct (keys d)

keep-IsFound : (d : Found) (f : Finding) → IsNormal f → IsFound d → IsFound (keep d f)
unfolding keep
keep-IsFound d f n h = elim (Bool-cases (is_nil f.title)) [
  | inl p ↦ subst IsFound (sym (if_true _ d (put (key f) f d) p)) h
  | inr q ↦
      subst IsFound (sym (if_false _ d (put (key f) f d) q))
        (put-All IsEntry (key f) f d (refl, q, n) h.0, keys-put-Distinct (key f) f d h.1)
]

module _ (h : Host) where
  add_call-IsFound : (d e : Found) (c : ToolCall) → add_call h d c ≡ some e → IsFound d → IsFound e
  unfolding add_call
  add_call-IsFound d e c eq found = elim (Bool-cases (c.name == finding_tool)) [
    | inl p ↦
        let (f, read, kept) =
          bind_some (finding_from_args h c.args) (λ f. some (keep d f)) e
            (sym (if_true _ _ (some d) p) ∙ eq) in
        subst IsFound (the_some kept)
          (keep-IsFound d f (finding_from_args-IsNormal h c.args f read) found)
    | inr q ↦ subst IsFound (the_some (sym (if_false _ _ (some d) q) ∙ eq)) found
  ]

  add_calls-IsFound :
      (cs : List ToolCall) (d e : Found) → add_calls h d cs ≡ some e → IsFound d → IsFound e
  unfolding add_calls
  add_calls-IsFound [] d e eq found = subst IsFound (the_some eq) found
  add_calls-IsFound (c ∷ cs) d e eq found =
      let (d', one, rest) = bind_some (add_call h d c) (λ d'. add_calls h d' cs) e eq in
      add_calls-IsFound cs d' e rest (add_call-IsFound d d' c one found)

  add_message-IsFound :
      (m : Message) (d e : Found) → add_message h d m ≡ some e → IsFound d → IsFound e
  unfolding add_message
  add_message-IsFound (ai m) d e eq found = add_calls-IsFound m.tool_calls d e eq found
  add_message-IsFound (tool m) d e eq found = subst IsFound (the_some eq) found
  add_message-IsFound (human m) d e eq found = subst IsFound (the_some eq) found
  add_message-IsFound (system m) d e eq found = subst IsFound (the_some eq) found

  add_messages-IsFound :
      (ms : List Message) (d e : Found) → add_messages h d ms ≡ some e → IsFound d → IsFound e
  unfolding add_messages
  add_messages-IsFound [] d e eq found = subst IsFound (the_some eq) found
  add_messages-IsFound (m ∷ ms) d e eq found =
      let (d', one, rest) = bind_some (add_message h d m) (λ d'. add_messages h d' ms) e eq in
      add_messages-IsFound ms d' e rest (add_message-IsFound m d d' one found)

values-All :
    (d : Found)
    → All IsEntry d
    → All (λ f. (is_nil f.title ≡ false) × IsNormal f) (map (λ e. e.1) d)
values-All [] h = tt
values-All (e ∷ d) h = ((h.0.1, h.0.2), values-All d h.1)

keys-values : (d : Found) → All IsEntry d → map key (map (λ e. e.1) d) ≡ keys d
keys-values [] h = refl
keys-values (e ∷ d) h = ap₂ (λ a as'. a ∷ as') (sym h.0.0) (keys-values d h.1)

severe_total : (f g : Finding) → at_least_as_severe f g ≡ false → at_least_as_severe g f ≡ true
severe_total f g e = ground arith

severe_trans :
    (f g k : Finding)
    → at_least_as_severe f g ≡ true
    → at_least_as_severe g k ≡ true
    → at_least_as_severe f k ≡ true
severe_trans f g k p q = ground arith

-- If no call's arguments raise, the findings are in the order of their severity, each has a title
-- and a severity and a category of the lists, and no two agree in title and file.
pub collect_findings-Ordered :
    (h : Host) (messages : List Message) (findings : List Finding)
    → collect_findings h messages ≡ some findings
    → Ordered at_least_as_severe findings
      × All (λ f. (is_nil f.title ≡ false) × IsNormal f) findings
      × Distinct (map key findings)
unfolding collect_findings
collect_findings-Ordered h messages findings e =
    let (d, read, out) =
      bind_some (add_messages h [] messages)
        (λ d. some (sorted at_least_as_severe (map (λ e. e.1) d))) findings e in
    let found : IsFound d = add_messages-IsFound h messages [] d read (tt, tt) in
    let fs : List Finding = map (λ e. e.1) d in
    subst
      (λ xs.
        Ordered at_least_as_severe xs
        × All (λ f. (is_nil f.title ≡ false) × IsNormal f) xs
        × Distinct (map key xs))
      (the_some out)
      (
        sorted-Ordered at_least_as_severe severe_total severe_trans fs,
        sorted-All _ at_least_as_severe fs (values-All d found.0),
        sorted-Distinct key at_least_as_severe fs
            (subst Distinct (sym (keys-values d found.0)) found.1),
      )
