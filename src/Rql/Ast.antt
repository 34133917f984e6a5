-- ===== src/Rql/Ast.antt =====
-- The nodes of a query (api/rql/internal/predicate, primary and expression). `Expr t` is a
-- predicate expression of the type of predicate `t`, with the expression nodes of
-- predicate/expression; its nonterminal nodes stand unravelled, as Unmarshal leaves them.
use wash.Prelude.{String, Bool}
use wash.Prelude.Int.{ℤ}
use wash.Rql.Host.{Host}

-- What the atoms of an expression are predicates on.
pub data Ptype : Type 0 where
  primary value number unsigned time_p text action_p : Ptype

pub data ComparisonOp : Type 0 where
  lt lte gt gte eql neql : ComparisonOp

pub data StringField : Type 0 where
  name cname path : StringField

pub data TimeField : Type 0 where
  atime crtime ctime mtime : TimeField

pub data Selector : Type 0 where
  some_elements all_elements : Selector
  index : ℤ → Selector

mutual
  pub data Expr (h : Host) : Ptype → Type 0 where
    atom : {t : Ptype} → Atom h t → Expr h t
    and or : {t : Ptype} → Expr h t → Expr h t → Expr h t
    not : {t : Ptype} → Expr h t → Expr h t

  pub data Atom (h : Host) : Ptype → Type 0 where
    numeric : ComparisonOp → h.Decimal → Atom h number
    unsigned_numeric : ComparisonOp → h.Decimal → Atom h unsigned
    tm : ComparisonOp → h.Time → Atom h time_p
    -- gStr and g of stringGlob
    glob : String → h.Glob → Atom h text
    regex : h.Regex → Atom h text
    equal : String → Atom h text
    action : String → Atom h action_p
    object_value : ObjectP h → Atom h value
    array_value : ArrayP h → Atom h value
    null_value : Atom h value
    boolean_value : Bool → Atom h value
    number_value : Expr h number → Atom h value
    time_value : Expr h time_p → Atom h value
    string_value : Expr h text → Atom h value
    action_primary : Expr h action_p → Atom h primary
    string_primary : StringField → Expr h text → Atom h primary
    kind_primary : Expr h text → Atom h primary
    time_primary : TimeField → Expr h time_p → Atom h primary
    size_primary : Expr h unsigned → Atom h primary
    meta_primary : Expr h value → Atom h primary
    boolean_primary : Bool → Atom h primary

  -- The ValuePredicate of a collectionBase: a size predicate or an element predicate.
  pub data ObjectP (h : Host) : Type 0 where
    object_size : Expr h unsigned → ObjectP h
    object_element : String → Expr h value → ObjectP h

  pub data ArrayP (h : Host) : Type 0 where
    array_size : Expr h unsigned → ArrayP h
    array_element : Selector → Expr h value → ArrayP h
