-- ===== src/Expr.antt =====
-- factorengine/expression.go: the syntax tree of a rule expression.
use risk_engine.Prelude.{Str}
use risk_engine.Operators.{ValueType, BinaryOp, UnaryOp, FunctionName}
use risk_engine.Schema.{FactorRef}
use risk_engine.Value.{Value}

mutual
  pub data Expr (D : Type 0) : Type 0 where
    literal : Value D → ValueType → Expr D
    factor_ref : FactorRef → Expr D
    conditional : Expr D → Expr D → Expr D → Expr D
    function_call : FunctionName → Exprs D → Expr D
    list : Exprs D → Expr D
    map : Entries D → Expr D
    unary : UnaryOp → Expr D → Expr D
    binary : BinaryOp → Expr D → Expr D → Expr D

  pub data Exprs (D : Type 0) : Type 0 where
    nil : Exprs D
    cons : Expr D → Exprs D → Exprs D

  pub data Entries (D : Type 0) : Type 0 where
    empty : Entries D
    entry : Str → Expr D → Entries D → Entries D
