-- ===== src/Tools/Calculator/Allowed.antt =====
-- What the two lists of the calculator let through, _SAFE_NODES and _OPS.
use agent_ship.Prelude.{
  String, ◌≡◌, ◌≢◌, refl, Bool, true, false, Option, ◌&&◌, ◌==◌, arith, Bool-cases, inl, inr,
}
use agent_ship.Text.{strip}
use agent_ship.Tools.Calculator.{
  Op, other_op, Node, number, constant, bin_op, unary_op, other_node, Outcome, value,
  division_by_zero, value_error, unsupported_operator, unsafe_node, escaped, Arithmetic, computed,
  zero_division, overflow_or_type, invalid, Answer, failed, Parsed, parsed, not_parsed, is_listed,
  is_safe, then_with, outcome, apply_op, apply_unary_op, safe_eval, answer, answer_tree, calculate,
}

-- Whether an outcome is the refusal of an operator.
abbrev is_refusal : {Num : Type 0} → Outcome Num → Bool
is_refusal (unsupported_operator type_name) = true
is_refusal o = false

abbrev is_refused : {Num : Type 0} → Answer Num → Bool
is_refused (failed o) = is_refusal o
is_refused a = false

and_lem : (a b : Bool) → a && b ≡ true → (a ≡ true) × (b ≡ true)
and_lem a b h = (ground arith, ground arith)

module _ {Num : Type 0} where
  outcome-supported : (a : Arithmetic Num) → is_refusal (outcome a) ≡ false
  outcome-supported (computed n) = refl
  outcome-supported zero_division = refl
  outcome-supported overflow_or_type = refl
  outcome-supported (invalid message) = refl

  then_with-supported :
      (o : Outcome Num) (next : Num → Outcome Num)
      → is_refusal o ≡ false
      → ((n : Num) → is_refusal (next n) ≡ false)
      → is_refusal (then_with o next) ≡ false
  then_with-supported (value n) next h later = later n
  then_with-supported division_by_zero next h later = refl
  then_with-supported (value_error message) next h later = refl
  then_with-supported (unsupported_operator type_name) next h later = h
  then_with-supported (unsafe_node type_name) next h later = refl
  then_with-supported escaped next h later = refl

  module _ (apply : Op → Num → Num → Arithmetic Num) (apply_unary : Op → Num → Arithmetic Num) where
    apply_op-supported :
        (op : Op) (left right : Outcome Num)
        → is_listed op ≡ true
        → is_refusal left ≡ false
        → is_refusal right ≡ false
        → is_refusal (apply_op apply apply_unary op left right) ≡ false
    apply_op-supported (other_op t) left right listed l r = cc
    apply_op-supported op left right listed l r =
        then_with-supported left (λ a. then_with right (λ b. outcome (apply op a b))) l
          λ a.
            then_with-supported right (λ b. outcome (apply op a b)) r
              λ b. outcome-supported (apply op a b)

    apply_unary_op-supported :
        (op : Op) (operand : Outcome Num)
        → is_listed op ≡ true
        → is_refusal operand ≡ false
        → is_refusal (apply_unary_op apply apply_unary op operand) ≡ false
    apply_unary_op-supported (other_op t) operand listed h = cc
    apply_unary_op-supported op operand listed h =
        then_with-supported operand (λ a. outcome (apply_unary op a)) h
          λ a. outcome-supported (apply_unary op a)

    safe_eval-supported :
        (tree : Node Num)
        → is_safe tree ≡ true
        → is_refusal (safe_eval apply apply_unary tree) ≡ false
    unfolding safe_eval is_safe
    safe_eval-supported (number n) h = refl
    safe_eval-supported constant h = refl
    safe_eval-supported (other_node t) h = refl
    safe_eval-supported (unary_op op operand) h =
        let (listed, safe) = and_lem (is_listed op) (is_safe operand) h in
        apply_unary_op-supported op (safe_eval apply apply_unary operand) listed
          (safe_eval-supported operand safe)
    safe_eval-supported (bin_op op left right) h =
        let (listed, both) = and_lem (is_listed op) (is_safe left && is_safe right) h in
        let (l, r) = and_lem (is_safe left) (is_safe right) both in
        apply_op-supported op (safe_eval apply apply_unary left) (safe_eval apply apply_unary right)
          listed (safe_eval-supported left l) (safe_eval-supported right r)

    module _ (parse : String → Parsed Num) (shown : Num → Option Num) where
      answer-supported :
          (expression : String) (o : Outcome Num)
          → is_refusal o ≡ false
          → is_refused (answer apply apply_unary parse shown expression o) ≡ false
      answer-supported expression (value n) h = ground arith
      answer-supported expression division_by_zero h = refl
      answer-supported expression (value_error message) h = refl
      answer-supported expression (unsupported_operator t) h = h
      answer-supported expression (unsafe_node t) h = refl
      answer-supported expression escaped h = refl

      answer_tree-supported :
          (expression : String) (tree : Parsed Num)
          → is_refused (answer_tree apply apply_unary parse shown expression tree) ≡ false
      answer_tree-supported expression (not_parsed message) = refl
      answer_tree-supported expression (parsed tree) = elim (Bool-cases (is_safe tree)) [
        | inl e ↦ rw e (
            answer-supported expression (safe_eval apply apply_unary tree)
              (safe_eval-supported tree e))
        | inr e ↦ rw e refl
      ]

      calculated :
          (text : String) → is_refused (calculate apply apply_unary parse shown text) ≡ false
      unfolding calculate
      calculated text = elim (Bool-cases (strip text == "")) [
        | inl e ↦ rw e refl
        | inr e ↦ rw e (answer_tree-supported (strip text) (parse (strip text)))
      ]

      -- Every operator that passes the list of safe nodes has an operation: whatever the expression, the
      -- calculator does not answer that an operator is unsupported.
      calculate-supported :
          (text type_name : String)
          → calculate apply apply_unary parse shown text ≢ failed (unsupported_operator type_name)
      calculate-supported text type_name h = cc (rw h at (calculated text))
