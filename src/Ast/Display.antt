-- ===== src/Ast/Display.antt =====
-- src/ast/mod.rs: `Display` of the occurrence indicators and of the range and control operators.
use cddl.Prelude.{Text, codes, none, some, true, false, ◌++◌}
use cddl.Prelude.Decimal.{show_ℕ}
use cddl.Token.Display.{display_control_operator}
use cddl.Ast.{Occur, RangeCtlOp}

unfoldable pub display_occur : Occur → Text
display_occur Occur.zero_or_more = codes "*"
display_occur (Occur.exact (some l) (some u)) = show_ℕ l ++ (codes "*" ++ show_ℕ u)
display_occur (Occur.exact (some l) none) = show_ℕ l ++ codes "*"
display_occur (Occur.exact none (some u)) = codes "*" ++ show_ℕ u
display_occur (Occur.exact none none) = codes "*"
display_occur Occur.one_or_more = codes "+"
display_occur Occur.optional = codes "?"

unfoldable pub display_range_ctl_op : RangeCtlOp → Text
unfolding display_control_operator
display_range_ctl_op (RangeCtlOp.range_op false) = codes "..."
display_range_ctl_op (RangeCtlOp.range_op true) = codes ".."
display_range_ctl_op (RangeCtlOp.ctl_op co) = display_control_operator co
