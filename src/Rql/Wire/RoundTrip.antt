-- ===== src/Rql/Wire/RoundTrip.antt =====
-- Marshal followed by Unmarshal (api/rql/internal).
use wash.Prelude.{ℕ, zero, suc, ◌<◌, ◌≡◌, refl, true, false, arith}
use wash.Rql.Host.{Host}
use wash.Rql.Outcome.{ok}
use wash.Rql.Ast.{
  Ptype, primary, value, name, cname, path, atime, crtime, ctime, mtime, Expr, Atom, ObjectP,
  ArrayP, atom, and, or, not, numeric, unsigned_numeric, tm, glob, regex, equal, action,
  object_value, array_value, null_value, boolean_value, number_value, time_value, string_value,
  action_primary, string_primary, kind_primary, time_primary, size_primary, meta_primary,
  boolean_primary, object_size, object_element, array_size, array_element,
}
use wash.Rql.Wire.Marshal.{marshal, marshal_atom}
use wash.Rql.Wire.Atoms.{unmarshal_string, unmarshal_action}
use wash.Rql.Wire.Unmarshal.{
  negatable, unmarshal_expr, unmarshal_value, unmarshal_primary, unmarshal_query, unmarshal_object,
  unmarshal_array, unmarshal_object_value,
}
use wash.Rql.Wire.Writable.{
  IsWritable, IsWritableAtom, IsWritableObject, IsWritableArray, IsObjectExpr, height, height_atom,
  height_object, height_array,
}
use wash.Rql.Wire.Levels.{reads_atom, Reads-or, Reads-and, Reads-not}
use wash.Rql.Wire.Leaves.{
  unmarshal_atom, skips_operators, skips_object, object_read, atom-ne-or, writes_numeric,
  writes_unsigned, writes_tm, writes_selector,
}

mutual
  unfolding marshal IsWritable height unmarshal_value unmarshal_primary unmarshal_string
      unmarshal_action

  writes :
      {h : Host} {t : Ptype} (e : Expr h t) (f k : ℕ)
      → IsWritable e
      → height e < f
      → height e < suc k
      → unmarshal_expr f (negatable t) (unmarshal_atom (suc k) t) (marshal e) ≡ ok e
  writes e zero k w p q = absurd (omega arith)
  writes (atom a) (suc f) k w p q =
      reads_atom f _ _ a (atom-ne-or a) (writes_atom a k w (omega arith))
  writes (and x y) (suc f) k (v, w) p q =
      Reads-and f _ _ (skips_operators k f _) x y (writes x f k v (omega arith) (omega arith))
        (writes y f k w (omega arith) (omega arith))
  writes (or x y) (suc f) k (v, w) p q =
      Reads-or f _ _ x y (writes x f k v (omega arith) (omega arith))
        (writes y f k w (omega arith) (omega arith))
  writes (not x) (suc f) k (n, w) p q =
      Reads-not f _ _ (skips_operators k f _) n x (writes x f k w (omega arith) (omega arith))

  writes_atom :
      {h : Host} {t : Ptype} (a : Atom h t) (k : ℕ)
      → IsWritableAtom a
      → height_atom a < suc k
      → unmarshal_atom (suc k) t (marshal_atom a) ≡ ok a
  writes_atom (numeric op n) k w p = writes_numeric op n w
  writes_atom (unsigned_numeric op n) k w p = writes_unsigned op n w
  writes_atom (tm op t) k w p = writes_tm op t
  writes_atom (glob s g) k w p = rw w
  writes_atom (regex r) k w p = rw w
  writes_atom (equal s) k w p = refl
  writes_atom (action a) k w p = rw w
  writes_atom (object_value o) k w p = rw (writes_object o k w (omega arith))
  writes_atom (array_value a) k w p = rw (writes_array a k w (omega arith))
  writes_atom null_value k w p = refl
  writes_atom (boolean_value b) k w p = refl
  writes_atom (number_value x) k w p = rw (writes x k k w (omega arith) (omega arith))
  writes_atom (time_value x) k w p = rw (writes x k k w (omega arith) (omega arith))
  writes_atom (string_value x) k w p = rw (writes x k k w (omega arith) (omega arith))
  writes_atom (action_primary x) k w p = rw (writes x (suc k) k w (omega arith) (omega arith))
  writes_atom (string_primary name x) k w p = rw (writes x (suc k) k w (omega arith) (omega arith))
  writes_atom (string_primary cname x) k w p = rw (writes x (suc k) k w (omega arith) (omega arith))
  writes_atom (string_primary path x) k w p = rw (writes x (suc k) k w (omega arith) (omega arith))
  writes_atom (kind_primary x) k w p = rw (writes x (suc k) k w (omega arith) (omega arith))
  writes_atom (time_primary atime x) k w p = rw (writes x (suc k) k w (omega arith) (omega arith))
  writes_atom (time_primary crtime x) k w p = rw (writes x (suc k) k w (omega arith) (omega arith))
  writes_atom (time_primary ctime x) k w p = rw (writes x (suc k) k w (omega arith) (omega arith))
  writes_atom (time_primary mtime x) k w p = rw (writes x (suc k) k w (omega arith) (omega arith))
  writes_atom (size_primary x) k w p = rw (writes x (suc k) k w (omega arith) (omega arith))
  writes_atom (meta_primary x) k (o, w) p =
      rw (writes_object_expr x (suc k) k o w (omega arith) (omega arith))
  writes_atom (boolean_primary b) k w p = refl

  writes_object :
      {h : Host} (o : ObjectP h) (k : ℕ)
      → IsWritableObject o
      → height_object o < suc k
      → unmarshal_object k
          (unmarshal_expr k true (unmarshal_value k))
          (marshal_atom {t = value} (object_value o))
        ≡ ok o
  writes_object (object_size x) k w p = rw (writes x k k w (omega arith) (omega arith))
  writes_object (object_element key x) zero w p = absurd (omega arith)
  writes_object (object_element key x) (suc k) w p =
      rw (writes x (suc k) k w (omega arith) (omega arith))

  writes_array :
      {h : Host} (a : ArrayP h) (k : ℕ)
      → IsWritableArray a
      → height_array a < suc k
      → unmarshal_array k
          (unmarshal_expr k true (unmarshal_value k))
          (marshal_atom {t = value} (array_value a))
        ≡ ok a
  writes_array (array_size x) k w p = rw (writes x k k w (omega arith) (omega arith))
  writes_array (array_element s x) zero w p = absurd (omega arith)
  writes_array {h} (array_element s x) (suc k) (v, w) p =
      rw (writes_selector h s v, writes x (suc k) k w (omega arith) (omega arith))

  writes_object_expr :
      {h : Host} (e : Expr h value) (f k : ℕ)
      → IsObjectExpr e
      → IsWritable e
      → height e < f
      → height e < suc k
      → unmarshal_expr f false (unmarshal_object_value (suc k)) (marshal e) ≡ ok e
  writes_object_expr e zero k o w p q = absurd (omega arith)
  writes_object_expr (atom (object_value ob)) (suc f) k o w p q =
      reads_atom f _ _ (object_value ob) (atom-ne-or (object_value ob))
        (object_read ob k (writes_object ob (suc k) w (omega arith)))
  writes_object_expr (and x y) (suc f) k (a, b) (v, w) p q =
      Reads-and f _ _ (skips_object k f) x y
        (writes_object_expr x f k a v (omega arith) (omega arith))
        (writes_object_expr y f k b w (omega arith) (omega arith))
  writes_object_expr (or x y) (suc f) k (a, b) (v, w) p q =
      Reads-or f _ _ x y (writes_object_expr x f k a v (omega arith) (omega arith))
        (writes_object_expr y f k b w (omega arith) (omega arith))
  writes_object_expr e (suc f) k o w p q = absurd o

-- A query that Unmarshal can have read (its decimals, globs and regular expressions come from their
-- text, its actions exist, and a NOT stands only where the grammar has one) is read back from what
-- Marshal writes of it, with any fuel above its height.
pub unmarshal-marshal :
    {h : Host} (q : Expr h primary) (f : ℕ)
    → IsWritable q
    → height q < suc f
    → unmarshal_query (suc f) (marshal q) ≡ ok q
unfolding unmarshal_query
unmarshal-marshal q f w p = writes q (suc f) f w p p
