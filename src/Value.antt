-- ===== src/Value.antt =====
-- The values that the program reads out of JSON-like data: message metadata, tool arguments, wire
-- messages. `other` is an object of any other class, by its `str`.
pub mod Entries
use git_agent.Base.{
  Text, Bool, true, false, Option, none, some, ◌≡◌, ℤ, pos, zero, arith, nat_eq, list_eq, ◌==◌,
  ==-iff_eq, if◌then◌else◌, refl, is_nil, not,
}

mutual
  pub data Value : Type 0 where
    null : Value
    bool : Bool → Value
    int : ℤ → Value
    str : Text → Value
    arr : Values → Value
    obj : Fields → Value
    other : Text → Value

  pub data Values : Type 0 where
    nil : Values
    cons : Value → Values → Values

  -- A dictionary with string keys, in the order of insertion.
  pub data Fields : Type 0 where
    end : Fields
    field : Text → Value → Fields → Fields

-- `d.get(k)`
unfoldable pub field_get : Text → Fields → Option Value
field_get k end = none
field_get k (field j v d) = if j == k then some v else field_get k d

-- `d[k] = v`
unfoldable pub field_put : Text → Value → Fields → Fields
field_put k v end = field k v end
field_put k v (field j w d) = if j == k then field j v d else field j w (field_put k v d)

-- `d.pop(k, None)`
unfoldable pub field_pop : Text → Fields → Fields
field_pop k end = end
field_pop k (field j w d) = let rest = field_pop k d in if j == k then rest else field j w rest

pub field_get-put :
    (k j : Text) (v : Value) (d : Fields)
    → field_get j (field_put k v d) ≡ (if k == j then some v else field_get j d)
unfolding field_get field_put
field_get-put k j v end = refl
field_get-put k j v (field i w d) =
    ground (arith, ==-iff_eq k j, ==-iff_eq i k, ==-iff_eq i j, field_get-put k j v d)

pub field_get-pop :
    (k j : Text) (d : Fields)
    → field_get j (field_pop k d) ≡ (if k == j then none else field_get j d)
unfolding field_get field_pop
field_get-pop k j end = ground arith
field_get-pop k j (field i w d) =
    ground (arith, ==-iff_eq k j, ==-iff_eq i k, ==-iff_eq i j, field_get-pop k j d)

-- `[v for v in vs if p(v)]`
unfoldable pub filter_values : (Value → Bool) → Values → Values
filter_values p nil = nil
filter_values p (cons v vs) = let rest = filter_values p vs in if p v then cons v rest else rest

-- Every value of the list satisfies `P`.
abbrev pub AllValues : (Value → Type 0) → Values → Type 0
AllValues P nil = Unit
AllValues P (cons v vs) = P v × AllValues P vs

pub filter_values-All :
    (p : Value → Bool) (vs : Values) → AllValues (λ v. p v ≡ true) (filter_values p vs)
unfolding filter_values
filter_values-All p nil = tt
filter_values-All p (cons v vs) = ground (arith, filter_values-All p vs)

-- `bool(v)`
unfoldable pub truthy : Value → Bool
truthy null = false
truthy (bool b) = b
truthy (int (pos zero)) = false
truthy (int _) = true
truthy (str s) = not (is_nil s)
truthy (arr nil) = false
truthy (arr _) = true
truthy (obj end) = false
truthy (obj _) = true
truthy (other s) = true
