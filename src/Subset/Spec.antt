-- ===== src/Subset/Spec.antt =====
-- What `IsSubset` documents, with no algorithm in it: leaves are equal, slices agree element by
-- element, and each key of `expected` is a key of `actual` with a value that is a subset.
use kuttl.Common.{ℕ, String, ◌≡◌, Bool, true, some}
use kuttl.Common.Int.{ℤ}
use kuttl.Subset.{Value, Items, Fields, float_eq, map_index}

mutual
  pub data Subset : Value → Value → Type 0 where
    null : Subset Value.null Value.null
    boolean : (b : Bool) → Subset (Value.boolean b) (Value.boolean b)
    int : (n : ℤ) → Subset (Value.int n) (Value.int n)
    float : {x y : ℕ} → float_eq x y ≡ true → Subset (Value.float x) (Value.float y)
    string : (s : String) → Subset (Value.string s) (Value.string s)
    slice : {xs ys : Items} → SubsetItems xs ys → Subset (Value.slice xs) (Value.slice ys)
    map : {fs gs : Fields} → SubsetFields fs gs → Subset (Value.map fs) (Value.map gs)

  pub data SubsetItems : Items → Items → Type 0 where
    nil : SubsetItems Items.nil Items.nil
    cons :
        {x y : Value} {xs ys : Items}
        → Subset x y
        → SubsetItems xs ys
        → SubsetItems (Items.cons x xs) (Items.cons y ys)

  pub data SubsetFields : Fields → Fields → Type 0 where
    end : {gs : Fields} → SubsetFields Fields.end gs
    field :
        {k : String} {v w : Value} {fs gs : Fields}
        → map_index k gs ≡ some w
        → Subset v w
        → SubsetFields fs gs
        → SubsetFields (Fields.field k v fs) gs
