-- ===== src/Domain.antt =====
-- internal/domain/state.go: the states of deployments, orders and refunds, and which moves between
-- them are allowed. The Go maps list the allowed moves; a pair that is not listed reads as false.
pub mod Laws
use cloudmeter.Common.{Bool, true, false}

pub data DeploymentState : Type 0 where
  queued pulling starting health_checking switching_route succeeded rolling_back failed :
      DeploymentState

pub data OrderState : Type 0 where
  pending paid closed refunding refunded : OrderState

pub data RefundState : Type 0 where
  processing succeeded failed : RefundState

-- `ValidateDeploymentTransition(from, to) == nil`.
unfoldable pub deployment_transition : DeploymentState → DeploymentState → Bool
deployment_transition queued pulling = true
deployment_transition queued DeploymentState.failed = true
deployment_transition pulling starting = true
deployment_transition pulling rolling_back = true
deployment_transition pulling DeploymentState.failed = true
deployment_transition starting health_checking = true
deployment_transition starting rolling_back = true
deployment_transition starting DeploymentState.failed = true
deployment_transition health_checking health_checking = true
deployment_transition health_checking switching_route = true
deployment_transition health_checking rolling_back = true
deployment_transition health_checking DeploymentState.failed = true
deployment_transition switching_route DeploymentState.succeeded = true
deployment_transition switching_route rolling_back = true
deployment_transition rolling_back DeploymentState.failed = true
deployment_transition _ _ = false

-- `ValidateOrderTransition(from, to) == nil`.
unfoldable pub order_transition : OrderState → OrderState → Bool
order_transition pending paid = true
order_transition pending closed = true
order_transition paid refunding = true
order_transition refunding refunded = true
order_transition refunding paid = true
order_transition _ _ = false

-- `ValidateRefundTransition(from, to) == nil`.
unfoldable pub refund_transition : RefundState → RefundState → Bool
refund_transition processing RefundState.succeeded = true
refund_transition processing RefundState.failed = true
refund_transition _ _ = false
