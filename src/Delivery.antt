-- ===== src/Delivery.antt =====
-- integrations/splunk/alert2ir_delivery/bin/alert2ir_delivery.py: the alert action on a Splunk host.
pub mod Signature
pub mod Classification
pub mod Deliver
pub mod Agreement
pub mod Finding
pub mod Execute
pub mod Build
