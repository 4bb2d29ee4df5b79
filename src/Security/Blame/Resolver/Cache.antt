-- ===== src/Security/Blame/Resolver/Cache.antt =====
-- The caches of a turn change no answer.
use git_agent.Base.{
  Text, Bool, true, false, Option, none, some, [], ◌∷◌, ◌≡◌, refl, sym, ap, ◌∙◌, subst, ◌>>=◌, ℤ,
  All, Dict, get, put, put-All, HasEq, OnSome, if◌then◌else◌, nat_eq, list_eq, pair_eq, ◌==◌,
  ==-iff_eq,
}
use git_agent.Security.Blame.{Blame}
use git_agent.Security.Blame.Resolver.{
  Resolver, Key, Caches, first_line, last_line, blame_lines, ancestry, cached_or, introduced_by,
  with_introduced, resolve_key, resolve,
}

-- The answer without any cache.
abbrev pub origin : Resolver → Option (Text × Text) → Text → Option Text
origin r none commit = none
origin r (some range) commit = ancestry r range commit

abbrev pub with_origin : Resolver → Option Text → Blame → Blame
with_origin r none blame = blame
with_origin r (some []) blame = blame
with_origin r (some (x ∷ commit)) blame = record blame {
  introduced_by = origin r r.range (x ∷ commit);
}

abbrev pub completed : Resolver → Option Blame → Option Blame
completed r found = found >>= λ b. some (with_origin r b.commit b)

abbrev pub answer : Resolver → Key → Option Blame
answer r key = completed r (blame_lines r key)

-- What the caches hold is what would be answered.
abbrev IsCurrentFor : Resolver → Option (Text × Text) → Caches → Type 0
IsCurrentFor r range c =
    All (λ e. answer r e.0 ≡ some e.1) c.blame_cache
    × All (λ e. origin r range e.0 ≡ e.1) c.ancestry_cache

abbrev pub IsCurrent : Resolver → Caches → Type 0
IsCurrent r = IsCurrentFor r r.range

get-All {ℓ} :
    {K V : Type 0} ⦃e : HasEq K⦄ (P : K × V → Type ℓ) (k : K) (d : Dict K V)
    → All P d
    → OnSome (λ v. P (k, v)) (get k d)
unfolding get
get-All P k [] h = tt
get-All P k ((j, v) ∷ d) (p, h) = found (j == k) refl (get-All P k d h)
  where
    found :
        (b : Bool)
        → (j == k) ≡ b
        → OnSome (λ v. P (k, v)) (get k d)
        → OnSome (λ v. P (k, v)) (if b then some v else get k d)
    found true e q = subst (λ i. P (i, v)) ((==-iff_eq j k).0 e) p
    found false e q = q

introduced_by-origin :
    (r : Resolver) (range : Option (Text × Text)) (commit : Text) (c : Caches)
    → IsCurrentFor r range c
    → ((introduced_by r range commit c).0 ≡ origin r range commit)
      × IsCurrentFor r range (introduced_by r range commit c).1
unfolding introduced_by
introduced_by-origin r none commit c h = (refl, h)
introduced_by-origin r (some range) commit c h =
    known (get commit c.ancestry_cache) (get-All _ commit c.ancestry_cache h.1)
  where
    result : Option Text
    result = ancestry r range commit

    known :
        (o : Option (Option Text))
        → OnSome (λ v. result ≡ v) o
        → let now =
            cached_or o
              (result, record c { ancestry_cache = put commit result c.ancestry_cache })
              c in
          (now.0 ≡ result) × IsCurrentFor r (some range) now.1
    known none e = (refl, (h.0, put-All _ commit result c.ancestry_cache refl h.1))
    known (some v) e = (sym e, h)

with_introduced-origin :
    (r : Resolver) (commit : Option Text) (blame : Blame) (c : Caches)
    → IsCurrent r c
    → ((with_introduced r commit blame c).0 ≡ with_origin r commit blame)
      × IsCurrent r (with_introduced r commit blame c).1
unfolding with_introduced
with_introduced-origin r none blame c h = (refl, h)
with_introduced-origin r (some []) blame c h = (refl, h)
with_introduced-origin r (some (x ∷ commit)) blame c h =
    let (p, q) = introduced_by-origin r r.range (x ∷ commit) c h in
    (ap (λ by. record blame { introduced_by = by }) p, q)

-- An answer to a request, and the caches after it.
abbrev pub Agrees : Resolver → Key → Option (Blame × Caches) → Type 0
Agrees r key result =
    ((result >>= λ p. some p.0) ≡ answer r key) × OnSome (λ p. IsCurrent r p.1) result

found-Agrees :
    (r : Resolver) (key : Key) (c : Caches) (found : Option Blame)
    → IsCurrent r c
    → blame_lines r key ≡ found
    → Agrees r key (
        found >>= λ b.
        let (blame, d) = with_introduced r b.commit b c in
        some (blame, record d { blame_cache = put key blame d.blame_cache }))
found-Agrees r key c none h e = (sym (ap (completed r) e), tt)
found-Agrees r key c (some b) h e =
    let (p, q) = with_introduced-origin r b.commit b c h in
    let right = ap (completed r) e ∙ ap some (sym p) in
    (sym right, (put-All _ key _ _ right q.0, q.1))

resolve_key-Agrees :
    (r : Resolver) (key : Key) (c : Caches) (known : Option Blame)
    → IsCurrent r c
    → OnSome (λ b. answer r key ≡ some b) known
    → Agrees r key (resolve_key r key known c)
unfolding resolve_key
resolve_key-Agrees r key c none h e = found-Agrees r key c (blame_lines r key) h refl
resolve_key-Agrees r key c (some b) h e = (sym e, h)

-- While the sandbox does not change, and if the caches hold what the sandbox says, `resolve` gives
-- the answer that it gives without caches, its exception included, and the caches still hold what
-- the sandbox says.
pub resolve-Agrees :
    (r : Resolver) (file : Text) (start : ℤ) (end : Option ℤ) (c : Caches)
    → IsCurrent r c
    → Agrees r
        (file, (first_line start, last_line (first_line start) end))
        (resolve r file start end c)
unfolding resolve
resolve-Agrees r file start end c h =
    let key : Key = (file, (first_line start, last_line (first_line start) end)) in
    resolve_key-Agrees r key c (get key c.blame_cache) h (get-All _ key c.blame_cache h.0)
