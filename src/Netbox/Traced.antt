-- ===== src/Netbox/Traced.antt =====
-- The operations on NetBox that write send one call, the last thing they do.
use argora.Base.{ℕ, ◌≡◌, List, [], ◌∷◌}
use argora.Models.Netbox.{WritableDevice, WritableInterface}
use argora.World.{World}
use argora.Effect.{
  Call, update_device, update_interface, delete_interface, create_ip_address, delete_ip_address,
}
use argora.Effect.Traces.{Traces, AtMost, unsent}
use argora.Effect.Traces.Replies.{Traces-after_reply, Traces-send, Traces-wrap_error}
use argora.Effect.Returns.{Returns-any}
use argora.Netbox.Emitted.{dcim_service-Emits, ipam_service-Emits}
use argora.Netbox.Dcim
use argora.Netbox.Ipam

-- The call, and nothing else.
abbrev pub Once : {A : Type 0} → Call → A → List Call → Type 0
Once c a cs = cs ≡ c ∷ []

module _ {W : World} where
  pub update_device-Traces :
      (d : WritableDevice)
      → Traces {W = W} (Once (update_device d)) (AtMost (update_device d)) (Dcim.update_device d)
  unfolding Dcim.update_device
  update_device-Traces d =
      Traces-after_reply _ _ dcim_service-Emits (Returns-any _) unsent
        (λ client _. Traces-wrap_error _ _ (Traces-send _ _))

  pub update_interface-Traces :
      (i : WritableInterface) (id : ℕ)
      → Traces {W = W}
          (Once (update_interface i id))
          (AtMost (update_interface i id))
          (Dcim.update_interface i id)
  unfolding Dcim.update_interface
  update_interface-Traces i id =
      Traces-after_reply _ _ dcim_service-Emits (Returns-any _) unsent
        (λ client _. Traces-wrap_error _ _ (Traces-send _ _))

  pub delete_interface-Traces :
      (id : ℕ)
      → Traces {W = W}
          (Once (delete_interface id))
          (AtMost (delete_interface id))
          (Dcim.delete_interface id)
  unfolding Dcim.delete_interface
  delete_interface-Traces id =
      Traces-after_reply _ _ dcim_service-Emits (Returns-any _) unsent
        (λ client _. Traces-wrap_error _ _ (Traces-send _ _))

  pub create_ip_address-Traces :
      (params : Ipam.CreateIpAddressParams)
      → Traces {W = W}
          (Once (create_ip_address (Ipam.new_ip_address params)))
          (AtMost (create_ip_address (Ipam.new_ip_address params)))
          (Ipam.create_ip_address params)
  unfolding Ipam.create_ip_address
  create_ip_address-Traces params =
      Traces-after_reply _ _ ipam_service-Emits (Returns-any _) unsent
        (λ client _. Traces-wrap_error _ _ (Traces-send _ _))

  pub delete_ip_address-Traces :
      (id : ℕ)
      → Traces {W = W}
          (Once (delete_ip_address id))
          (AtMost (delete_ip_address id))
          (Ipam.delete_ip_address id)
  unfolding Ipam.delete_ip_address
  delete_ip_address-Traces id =
      Traces-after_reply _ _ ipam_service-Emits (Returns-any _) unsent
        (λ client _. Traces-wrap_error _ _ (Traces-send _ _))
