-- ===== src/Kube.antt =====
-- What the operator uses of Kubernetes and Kubeflow, none of which is code of the repository: the
-- objects, as records of the fields that are read or written, and the clients, as parameters.
pub mod Objects
pub mod Outcome
pub mod Client
