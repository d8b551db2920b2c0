-- ===== src/Scheduler/Resources.antt =====
-- Laws of the resource arrays of src/scheduler.c, entry by entry.
use sky_net_os.Base.{◌≡◌, arith, int_laws, ℤ, true}
use sky_net_os.Scheduler.State.{Resources, resources, no_resources, ◌+r◌, ◌-r◌, ◌≤r◌, leb_resources}

pub resources_path : {a b c d e f : ℤ} → a ≡ b → c ≡ d → e ≡ f → resources a c e ≡ resources b d f
resources_path p q r = λ i. resources (p i) (q i) (r i)

pub +r-right_comm : (a b c : Resources) → a +r b +r c ≡ a +r c +r b
unfolding ◌+r◌
+r-right_comm a b c = resources_path (omega int_laws) (omega int_laws) (omega int_laws)

pub sub_add_cancel : (a b : Resources) → a -r b +r b ≡ a
unfolding ◌+r◌ ◌-r◌
sub_add_cancel a b = resources_path (omega int_laws) (omega int_laws) (omega int_laws)

pub add_sub_cancel : (a b : Resources) → a +r b -r b ≡ a
unfolding ◌+r◌ ◌-r◌
add_sub_cancel a b = resources_path (omega int_laws) (omega int_laws) (omega int_laws)

pub +r-le : (a b : Resources) → no_resources ≤r b → a ≤r a +r b
unfolding ◌+r◌
+r-le a b h = omega int_laws

pub ≤r_trans : (a b c : Resources) → a ≤r b → b ≤r c → a ≤r c
≤r_trans a b c p q = omega arith

pub leb_resources-le : (a b : Resources) → leb_resources a b ≡ true → a ≤r b
unfolding leb_resources
leb_resources-le a b h = ground arith

pub le-leb_resources : (a b : Resources) → a ≤r b → leb_resources a b ≡ true
unfolding leb_resources
le-leb_resources a b h = ground arith
