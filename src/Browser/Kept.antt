-- ===== src/Browser/Kept.antt =====
-- Relations between the worlds and between the timers of a tab, along all that a page does.
pub mod Views
pub mod Parts
pub mod Run
use full_project.Prelude.{◌≡◌, true, ℕ, Bool, Option, none, some}
use full_project.Js.Text.{Text}
use full_project.Page.{Page}
use full_project.World.{World, M}
use full_project.World.Steps.{IsPreorder, Steps, pure-Steps}
use full_project.Send.Settle.{Outcome, settle_pending}
use full_project.Send.Calm.{IsCalm}
use full_project.Checkout.{send_initiate_checkout_once}
use full_project.Shop.Cart.{fire_add_payment_info}
use full_project.Browser.{Task, Tab, lift, modify, set_timeout, clear_timeout}
use full_project.Browser.Timers.{IsWell, is_plain, IsWell-added, IsWell-without}

-- The page's ordinary work, the two events that have marks, and the calls of `fetch` that settle.
pub record IsKept (p : Page) (R : World → World → Type 0) : Type 0 where
  pub calm : IsCalm p R
  pub checkout :
      (reason : Text) (synchronous : Bool)
      → Steps R (send_initiate_checkout_once p reason synchronous)
  pub payment : (method : Text) → Steps R (fire_add_payment_info p method)
  pub settled : (n : ℕ) (outcome : Outcome) → Steps R (settle_pending p n outcome)

-- The relation, between the worlds of two tabs, whose timers stay well-formed.
abbrev pub Inside : (World → World → Type 0) → Tab → Tab → Type 0
Inside R t u = R t.world u.world × (IsWell t → IsWell u)

pub Inside-same : {R : World → World → Type 0} → IsPreorder R → (t : Tab) → Inside R t t
Inside-same o t = (o.refl_lem t.world, λ h. h)

pub modify-Steps :
    (R : World → World → Type 0) (f : Tab → Tab)
    → ((t : Tab) → Inside R t (f t))
    → Steps (Inside R) (modify f)
modify-Steps R f h = record { steps = h }

module _ {R : World → World → Type 0} where
  pub Inside-IsPreorder : IsPreorder R → IsPreorder (Inside R)
  Inside-IsPreorder o = record {
    refl_lem = Inside-same o;
    trans_lem = λ t u v (h, k) (g, l). (o.trans_lem t.world u.world v.world h g, λ e. l (k e));
  }

  pub lift-Steps : {A : Type 0} {m : M A} → Steps R m → Steps (Inside R) (lift m)
  unfolding lift
  lift-Steps h = record { steps = λ t. (h.steps t.world, λ k. k) }

  pub set_timeout-Steps :
      (o : IsPreorder R) (delay : ℕ) (task : Task)
      → is_plain task ≡ true
      → Steps (Inside R) (set_timeout delay task)
  unfolding set_timeout
  set_timeout-Steps o delay task plain = record {
    steps = λ t. (o.refl_lem t.world, IsWell-added delay task t plain);
  }

  pub clear_timeout-Steps :
      (o : IsPreorder R) (timer : Option ℕ) → Steps (Inside R) (clear_timeout timer)
  unfolding clear_timeout
  clear_timeout-Steps o none = pure-Steps (Inside-IsPreorder o)
  clear_timeout-Steps o (some id) = record {
    steps = λ t. (o.refl_lem t.world, IsWell-without id t);
  }
