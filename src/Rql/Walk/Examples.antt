-- ===== src/Rql/Walk/Examples.antt =====
-- A start entry with the children five and a, in this order; a has a child five, which has one too.
use wash.Prelude.{String, ◌≡◌, refl, true, false, none, [], ◌∷◌}
use wash.Rql.Any.{end}
use wash.Rql.Ast.{primary, name, Expr, atom, string_primary}
use wash.Rql.Eval.{eval}
use wash.Rql.EvalSchema.{is_included}
use wash.Rql.Examples.{sample_host, is_five}
use wash.Rql.Walk.{
  Options, Schemas, Listed, Node, node, lists, no_more, more, found, walk, child_schema, child_path,
  sort_by_cname,
}
use wash.Rql.Walk.Meets.{Meets}
use wash.Rql.Walk.Descend.{descend}
use wash.Rql.Walk.Selects.{AreFine, selected, walk_lem}

abbrev sample_listed : String → Listed sample_host
sample_listed cname = record {
  name = cname;
  cname = cname;
  type_id = "dir";
  actions = "list" ∷ [];
  attributes = record { atime = 1; mtime = 2; ctime = 3; crtime = 4; size = 5 };
  partial_metadata = end;
  full_metadata = none;
}

abbrev leaf : String → Node sample_host
leaf cname = node (sample_listed cname) (lists no_more)

abbrev sample_tree : Node sample_host
sample_tree = node (sample_listed "start") (
    lists (
      more (leaf "five") (
        more
          (node (sample_listed "a") (
            lists
              (more (node (sample_listed "five") (lists (more (leaf "five") no_more))) no_more)))
          no_more)))

abbrev sample_options : Options
sample_options = record { mindepth = 1; maxdepth = 2; fullmeta = false }

abbrev no_schemas : Schemas sample_host
no_schemas = record {
  describe = λ s. record { path = ""; actions = []; metadata_schema = none };
  type_id = λ s. "";
  children = λ s. [];
}

abbrev name_five : Expr sample_host primary
name_five = atom (string_primary name is_five)

sample-AreFine :
    AreFine
      (λ s v. true)
      1
      name_five
      sample_options
      no_schemas
      (descend sample_options no_schemas sample_tree "" none 0)
unfolding descend sort_by_cname child_schema child_path is_included eval
sample-AreFine = ((false, refl), ((false, refl), ((true, refl), ((true, refl), tt))))

walk_lem_example :
    Meets sample_options no_schemas sample_tree "" none 0
      (descend sample_options no_schemas sample_tree "" none 0)
    × (walk (λ s v. true) 1 name_five sample_options no_schemas sample_tree "" none 0
        ≡ found (
            selected
              (λ s v. true)
              1
              name_five
              sample_options
              no_schemas
              (descend sample_options no_schemas sample_tree "" none 0)))
walk_lem_example =
    walk_lem (λ s v. true) 1 name_five sample_options no_schemas sample_tree "" none 0 refl
      sample-AreFine
