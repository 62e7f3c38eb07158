-- ===== src/Transfer/Dispatch/Keeps.antt =====
-- The dispatch of src/solver/transfer/mod.rs, over all opcodes, makes frames only by the methods of
-- src/solver/frame.rs.
pub mod Arms
pub mod Values
pub mod Effects
use ferro_jtype.Prelude.{List, [], ◌∷◌, Option}
use ferro_jtype.Frame.{IsWellFormed}
use ferro_jtype.Frame.WellFormed.Reachable.{IsReachable, IsReachable-IsWellFormed}
use ferro_jtype.Opcodes.{Opcodes}
use ferro_jtype.Summary.{MethodSummaryResolver, FieldSummaryResolver}
use ferro_jtype.Transfer.{State, Site}
use ferro_jtype.Transfer.Stack.{unsupported}
use ferro_jtype.Transfer.Operations.Keeps.{not_modeled, Keeps, execute-Keeps}
use ferro_jtype.Transfer.Dispatch.{all_arms, transfer}
use ferro_jtype.Transfer.Dispatch.Keeps.Arms.{◌&◌, in_order-Keeps}
use ferro_jtype.Transfer.Dispatch.Keeps.Values.{
  constant_arms-Keeps, local_arms-Keeps, array_arms-Keeps, store_arms-Keeps, stack_arms-Keeps,
}
use ferro_jtype.Transfer.Dispatch.Keeps.Effects.{
  arithmetic_arms-Keeps, conversion_arms-Keeps, control_arms-Keeps, member_arms-Keeps,
  object_arms-Keeps,
}

module _ (op : Opcodes) (methods : Option MethodSummaryResolver)
    (fields : Option FieldSummaryResolver) (site : Site) where
  pub transfer-Keeps : Keeps (transfer op methods fields site)
  unfolding transfer
  transfer-Keeps =
      in_order-Keeps (all_arms op methods fields site) (unsupported site)
        (constant_arms-Keeps op methods fields site
          & local_arms-Keeps op methods fields site
          & array_arms-Keeps op methods fields site
          & store_arms-Keeps op methods fields site
          & stack_arms-Keeps op methods fields site
          & arithmetic_arms-Keeps op methods fields site
          & conversion_arms-Keeps op methods fields site
          & control_arms-Keeps op methods fields site
          & member_arms-Keeps op methods fields site
          & object_arms-Keeps op methods fields site
          & tt)
        (execute-Keeps site not_modeled)

-- Instructions of any opcodes and operands, one after the other.
abbrev pub transfer_all :
    Opcodes → Option MethodSummaryResolver → Option FieldSummaryResolver → List Site → State → State
transfer_all op methods fields [] s = s
transfer_all op methods fields (site ∷ sites) s =
    transfer_all op methods fields sites (transfer op methods fields site s).1

module _ (op : Opcodes) (methods : Option MethodSummaryResolver)
    (fields : Option FieldSummaryResolver) where
  transfer_all-Keeps :
      (sites : List Site) (s : State)
      → IsReachable s.frame
      → IsReachable (transfer_all op methods fields sites s).frame
  transfer_all-Keeps [] s r = r
  transfer_all-Keeps (site ∷ sites) s r =
      transfer_all-Keeps sites (transfer op methods fields site s).1
        (transfer-Keeps op methods fields site s r)

  -- Any sequence of instructions, of any opcodes and operands, with any numbers for the opcodes and
  -- any summaries, leads from a frame that the operations on frames make to one whose parallel
  -- vectors are of one length.
  pub transfer_all-IsWellFormed :
      (sites : List Site) (s : State)
      → IsReachable s.frame
      → IsWellFormed (transfer_all op methods fields sites s).frame
  transfer_all-IsWellFormed sites s r =
      IsReachable-IsWellFormed (transfer_all op methods fields sites s).frame
        (transfer_all-Keeps sites s r)
