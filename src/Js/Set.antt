-- ===== src/Js/Set.antt =====
-- `Set<string>`: the members in insertion order, as iteration visits them.
use flagship_platform.Shared.{
  ◌≡◌, refl, Bool, false, ◌||◌, List, [], ◌∷◌, ◌++◌, arith, if◌then◌else◌,
}
use flagship_platform.Js.Text.{JsString, str_eq, str_eq_iff}

abbrev pub JsSet : Type 0
JsSet = List JsString

-- s.has(k)
unfoldable pub has : JsSet → JsString → Bool
unfolding str_eq
has [] k = false
has (x ∷ xs) k = str_eq x k || has xs k

-- s.add(k)
unfoldable pub add : JsSet → JsString → JsSet
unfolding has
add s k = if has s k then s else s ++ k ∷ []

-- s.delete(k)
unfoldable pub delete : JsSet → JsString → JsSet
unfolding str_eq
delete [] k = []
delete (x ∷ xs) k = if str_eq x k then xs else x ∷ delete xs k

pub has-append : (s t : JsSet) (k : JsString) → has (s ++ t) k ≡ (has s k || has t k)
unfolding has
has-append [] t k = refl
has-append (x ∷ xs) t k = ground (arith, has-append xs t k)

pub has-add : (s : JsSet) (k j : JsString) → has (add s k) j ≡ (str_eq k j || has s j)
unfolding has add
has-add s k j = ground (arith, has-append s (k ∷ []) j, str_eq_iff k j)

pub delete-append_new : (s : JsSet) (k : JsString) → has s k ≡ false → delete (s ++ k ∷ []) k ≡ s
unfolding has delete
delete-append_new [] k h = ground (arith, str_eq_iff k k)
delete-append_new (x ∷ xs) k h = ground (arith, delete-append_new xs k)

-- What `finally` restores: deleting a key that was just added gives back the set.
pub delete-add_new : (s : JsSet) (k : JsString) → has s k ≡ false → delete (add s k) k ≡ s
unfolding add
delete-add_new s k h = ground (arith, delete-append_new s k)
