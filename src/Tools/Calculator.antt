-- ===== src/Tools/Calculator.antt =====
-- agentship/tools/builtins/calculator.py: arithmetic over an allow-list of syntax nodes.
pub mod Allowed
use agent_ship.Prelude.{
  String, ◌≡◌, ◌≢◌, refl, ap, Bool, true, false, Option, none, some, List, [], ◌∷◌, ◌&&◌, ◌==◌,
  if◌then◌else◌, arith, Bool-cases, inl, inr,
}
use agent_ship.Text.{strip}

-- The operators that are on both lists, and any other, by the name of its type.
pub data Op : Type 0 where
  add sub mult div floor_div modulo pow u_sub u_add : Op
  other_op : (type_name : String) → Op

-- A syntax tree of Python's `ast`: a constant is a number or not; a node of any other type is `other_node`.
pub data Node (Num : Type 0) : Type 0 where
  number : Num → Node Num
  constant : Node Num
  bin_op : Op → Node Num → Node Num → Node Num
  unary_op : Op → Node Num → Node Num
  other_node : (type_name : String) → Node Num

-- How an evaluation ends: a number, or what it raises. `escaped` is an exception that is not caught, as
-- OverflowError and TypeError are not.
pub data Outcome (Num : Type 0) : Type 0 where
  value : Num → Outcome Num
  division_by_zero : Outcome Num
  value_error : (message : String) → Outcome Num
  unsupported_operator unsafe_node : (type_name : String) → Outcome Num
  escaped : Outcome Num

-- What Python's arithmetic makes of two numbers, or of one.
pub data Arithmetic (Num : Type 0) : Type 0 where
  computed : Num → Arithmetic Num
  zero_division overflow_or_type : Arithmetic Num
  invalid : (message : String) → Arithmetic Num

-- the JSON that the model reads
pub data Answer (Num : Type 0) : Type 0 where
  result_of : (expression : String) → Num → Answer Num
  no_expression unsafe_expression divided_by_zero : Answer Num
  syntax_error : (message : String) → Answer Num
  failed : Outcome Num → Answer Num
  crashed : Answer Num

pub data Parsed (Num : Type 0) : Type 0 where
  parsed : Node Num → Parsed Num
  not_parsed : (message : String) → Parsed Num

-- in _SAFE_NODES and in _OPS
abbrev pub is_listed : Op → Bool
is_listed (other_op type_name) = false
is_listed op = true

module _ {Num : Type 0} where
  -- all(isinstance(node, _SAFE_NODES) for node in ast.walk(tree))
  unfoldable pub is_safe : Node Num → Bool
  is_safe (number n) = true
  is_safe constant = true
  is_safe (bin_op op left right) = is_listed op && (is_safe left && is_safe right)
  is_safe (unary_op op operand) = is_listed op && is_safe operand
  is_safe (other_node type_name) = false

  -- What an exception does to the rest of an expression.
  abbrev pub then_with : Outcome Num → (Num → Outcome Num) → Outcome Num
  then_with (value n) next = next n
  then_with failure next = failure

  abbrev pub outcome : Arithmetic Num → Outcome Num
  outcome (computed n) = value n
  outcome zero_division = division_by_zero
  outcome overflow_or_type = escaped
  outcome (invalid message) = value_error message

  -- Python's arithmetic
  module _ (apply : Op → Num → Num → Arithmetic Num) (apply_unary : Op → Num → Arithmetic Num) where
    abbrev pub apply_op : Op → Outcome Num → Outcome Num → Outcome Num
    apply_op (other_op type_name) left right = unsupported_operator type_name
    apply_op op left right = then_with left (λ a. then_with right (λ b. outcome (apply op a b)))

    abbrev pub apply_unary_op : Op → Outcome Num → Outcome Num
    apply_unary_op (other_op type_name) operand = unsupported_operator type_name
    apply_unary_op op operand = then_with operand (λ a. outcome (apply_unary op a))

    -- _safe_eval
    unfoldable pub safe_eval : Node Num → Outcome Num
    safe_eval (number n) = value n
    safe_eval constant = unsafe_node "Constant"
    safe_eval (bin_op op left right) = apply_op op (safe_eval left) (safe_eval right)
    safe_eval (unary_op op operand) = apply_unary_op op (safe_eval operand)
    safe_eval (other_node type_name) = unsafe_node type_name

    -- `shown` is a number as JSON shows it, or nothing where it cannot
    module _ (parse : String → Parsed Num) (shown : Num → Option Num) where
      abbrev pub answer : String → Outcome Num → Answer Num
      answer expression (value n) = elim (shown n) [
        | none ↦ crashed
        | some m ↦ result_of expression m
      ]
      answer expression division_by_zero = divided_by_zero
      answer expression escaped = crashed
      answer expression failure = failed failure

      abbrev pub answer_tree : String → Parsed Num → Answer Num
      answer_tree expression (not_parsed message) = syntax_error message
      answer_tree expression (parsed tree) =
          if is_safe tree then answer expression (safe_eval tree) else unsafe_expression

      -- _calculate
      unfoldable pub calculate : String → Answer Num
      unfolding strip is_safe safe_eval
      calculate text =
          let expression = strip text in
          if expression == "" then no_expression else answer_tree expression (parse expression)
