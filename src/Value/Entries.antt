-- ===== src/Value/Entries.antt =====
-- Dictionaries that are put together entry by entry, and what is read out of them.
use git_agent.Base.{
  Text, Bool, true, false, Option, none, some, List, [], ◌∷◌, ◌≡◌, refl, ap, ◌∙◌, if◌then◌else◌,
  nat_eq, list_eq, ◌==◌,
}
use git_agent.Value.{Value, Fields, field_get, field_put, field_get-put}

unfoldable pub put_opt : Text → Option Value → Fields → Fields
put_opt k none d = d
put_opt k (some v) d = field_put k v d

unfoldable pub put_entries : List (Text × Option Value) → Fields → Fields
put_entries [] d = d
put_entries (e ∷ es) d = put_entries es (put_opt e.0 e.1 d)

-- The value last put: the new one if there is one.
abbrev pub newer : Option Value → Option Value → Option Value
newer none old = old
newer (some v) old = some v

-- What an entry leaves at `k`, given what was there.
abbrev pub last_at : Text → List (Text × Option Value) → Option Value → Option Value
last_at k [] old = old
last_at k (e ∷ es) old = last_at k es (if e.0 == k then newer e.1 old else old)

same : (b : Bool) (o : Option Value) → o ≡ (if b then o else o)
same true o = refl
same false o = refl

field_get-put_opt :
    (k j : Text) (o : Option Value) (d : Fields)
    → field_get j (put_opt k o d) ≡ (if k == j then newer o (field_get j d) else field_get j d)
unfolding put_opt
field_get-put_opt k j none d = same (k == j) (field_get j d)
field_get-put_opt k j (some v) d = field_get-put k j v d

pub field_get-put_entries :
    (k : Text) (es : List (Text × Option Value)) (d : Fields)
    → field_get k (put_entries es d) ≡ last_at k es (field_get k d)
unfolding put_entries
field_get-put_entries k [] d = refl
field_get-put_entries k (e ∷ es) d =
    field_get-put_entries k es (put_opt e.0 e.1 d)
    ∙ ap (last_at k es) (field_get-put_opt e.0 k e.1 d)
