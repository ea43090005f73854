-- ===== src/Vmem/Leads.antt =====
-- The entries of kernel/vmem.c as links: whichever `switch` arm builds one, it is present and leads
-- to the page that it was built for.
use skinny_arm.Base.{ℕ, ◌^◌, ◌<◌, ◌≡◌, ap, ◌∙◌, some, arith}
use skinny_arm.Pte.{
  get_page_set, get_physical_addr, pgdpud_entry, pmd_entry, kernel_entry, device_entry, user_entry,
}
use skinny_arm.Pte.Entries.{attributes, table_entry_attributes, page_entry_attributes}
use skinny_arm.Vmem.{mapped_entry, leaf_entry, allocated_entry}
use skinny_arm.Vmem.Translate.{set_bit-lt}

-- An entry that says that its page is set, and leads to frame `p`.
pub record LeadsTo (e p : ℕ) : Type 0 where
  pub fits : e < 2 ^ 64
  pub present : get_page_set e ≡ 1
  pub address : get_physical_addr e ≡ p

module _ (p : ℕ) (hp : p < 2 ^ 36) where
  pgdpud-LeadsTo : LeadsTo (pgdpud_entry 0 p) p
  unfolding pgdpud_entry attributes
  pgdpud-LeadsTo =
      let h = (table_entry_attributes p hp).0 in
      record {
        fits = set_bit-lt _ 53 0;
        present = ap (λ a. a.page_set) h;
        address = ap (λ a. a.address) h;
      }

  pmd-LeadsTo : LeadsTo (pmd_entry 0 p) p
  unfolding pmd_entry attributes
  pmd-LeadsTo =
      let (h, h') = table_entry_attributes p hp in
      record {
        fits = set_bit-lt _ 53 0;
        present = ap (λ a. a.page_set) (h' ∙ h);
        address = ap (λ a. a.address) (h' ∙ h);
      }

  kernel-LeadsTo : LeadsTo (kernel_entry 0 p) p
  unfolding kernel_entry attributes
  kernel-LeadsTo =
      let h = (page_entry_attributes p hp).0 in
      record {
        fits = set_bit-lt _ 53 1;
        present = ap (λ a. a.page_set) h;
        address = ap (λ a. a.address) h;
      }

  device-LeadsTo : LeadsTo (device_entry 0 p) p
  unfolding device_entry attributes
  device-LeadsTo =
      let h = (page_entry_attributes p hp).1 in
      record {
        fits = set_bit-lt _ 53 1;
        present = ap (λ a. a.page_set) h;
        address = ap (λ a. a.address) h;
      }

  user-LeadsTo : LeadsTo (user_entry 0 p) p
  unfolding user_entry attributes
  user-LeadsTo =
      let h = (page_entry_attributes p hp).2 in
      record {
        fits = set_bit-lt _ 53 1;
        present = ap (λ a. a.page_set) h;
        address = ap (λ a. a.address) h;
      }

  -- Whichever entry a `switch` picks, it leads to the page that it was built for.
  pub mapped-LeadsTo : (kind e : ℕ) → mapped_entry kind p ≡ some e → LeadsTo e p
  unfolding mapped_entry
  mapped-LeadsTo kind e h = ground (arith, pgdpud-LeadsTo, device-LeadsTo, user-LeadsTo)

  leaf-LeadsTo : (kind e : ℕ) → leaf_entry kind p ≡ some e → LeadsTo e p
  unfolding leaf_entry
  leaf-LeadsTo kind e h = ground (arith, kernel-LeadsTo, device-LeadsTo, user-LeadsTo)

  pub allocated-LeadsTo : (i kind e : ℕ) → allocated_entry i kind p ≡ some e → LeadsTo e p
  unfolding allocated_entry
  allocated-LeadsTo i kind e h = ground (arith, pgdpud-LeadsTo, pmd-LeadsTo, leaf-LeadsTo kind e)
